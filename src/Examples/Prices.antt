-- ===== src/Examples/Prices.antt =====
-- The fold of spoken prices at work.
use sitewalk.Base.{
  ℕ, ◌≡◌, refl, Bool, true, false, ◌⊎◌, inl, inr, Option, none, some, List, [], ◌∷◌, ◌||◌, ◌&&◌,
  leb, map, arith,
}
use sitewalk.Base.Text.{Text, codes, text_eq}
use sitewalk.Base.TextMap.{get}
use sitewalk.Base.CharTables.{CharTables}
use sitewalk.Base.Members.{In, AreDistinct}
use sitewalk.Examples.{whole}
use sitewalk.Store.Domain.{CapturedItem, authoritative}
use sitewalk.Pipeline.SpokenPrice.Amount.{is_ascii_alphanumeric, find_amount}
use sitewalk.Pipeline.SpokenPrice.Label.{read}
use sitewalk.Pipeline.SpokenPrice.Money.{Reason}
use sitewalk.Pipeline.SpokenPrice.Fair.{
  Stands, fold_spoken_prices-total, fold_spoken_prices-accounts,
}
use sitewalk.Pipeline.SpokenPrice.Kept.{total_amount, total_said, item_ids}
use sitewalk.Pipeline.SpokenPrice.{Line, read_lines, fold_spoken_prices}

abbrev pub ascii : CharTables
ascii = record {
  is_alphanumeric = is_ascii_alphanumeric;
  is_alphabetic = λ c. leb b'A' c && leb c b'Z' || leb b'a' c && leb c b'z';
  to_uppercase = λ c. c ∷ [];
}

abbrev item : Text → Text → CapturedItem
item id text = record {
  id = id;
  session_id = codes "s1";
  kind = codes "todo";
  text = text;
  right = [];
  source = authoritative;
  is_done = false;
  created_at = 0;
  updated_at = 0;
  device_id = codes "d";
}

abbrev mulch_price : CapturedItem
mulch_price = item (codes "b") (codes "$200 mulch")

abbrev pub board : List CapturedItem
board =
    item (codes "a") (codes "5 yards of mulch")
    ∷ mulch_price
    ∷ item (codes "c") (codes "$1,250.50 for labor")
    ∷ item (codes "d") (codes "grading at $95/yd")
    ∷ []

fold_test :
    map (λ (i : CapturedItem). i.text) (fold_spoken_prices whole ascii board).items
    ≡ codes "5 yards of mulch" ∷ codes "labor" ∷ codes "grading at $95/yd" ∷ []
unfolding fold_spoken_prices sitewalk.Base.TextMap.get sitewalk.Base.TextMap.insert
    sitewalk.Pipeline.SpokenPrice.Amount.read_number sitewalk.Pipeline.SpokenPrice.Amount.is_rate
    sitewalk.Base.Text.is_whitespace sitewalk.Pipeline.SpokenPrice.Amount.has_currency_word
fold_test = refl

pub board-AreDistinct : AreDistinct (item_ids board)
unfolding text_eq
board-AreDistinct = ((refl, (refl, (refl, tt))), ((refl, (refl, tt)), ((refl, tt), (tt, tt))))

fold_spoken_prices-total_example :
    total_amount
      (fold_spoken_prices whole ascii board).amounts
      (fold_spoken_prices whole ascii board).items
    ≡ total_said ascii board
fold_spoken_prices-total_example = fold_spoken_prices-total whole ascii board board-AreDistinct

fold_spoken_prices-accounts_example :
    ((title : Text) × In
        (record mulch_price { text = title })
        (fold_spoken_prices whole ascii board).items)
    ⊎ ((l : Line) × (l.item ≡ mulch_price)
        × (l.reading ≡ read ascii (codes "$200 mulch"))
        × Reason ascii
            (read_lines whole ascii 0 board)
            (Stands (fold_spoken_prices whole ascii board))
            l)
fold_spoken_prices-accounts_example =
    fold_spoken_prices-accounts whole ascii board board-AreDistinct mulch_price (inr (inl refl))
