-- ===== src/Pipeline/SpokenPrice.antt =====
-- crates/murmur-core/src/pipeline/spoken_price.rs: folding spoken prices onto the work they describe.
pub mod Amount
pub mod Label
pub mod Ledger
pub mod Target
pub mod Money
pub mod Steps
pub mod Kept
pub mod Fair
pub mod Distinct
use sitewalk.Base.{
  ℕ, zero, suc, ◌+◌, Bool, true, false, not, ◌&&◌, ◌||◌, Option, none, some, List, [], ◌∷◌, ◌++◌,
  map, ◌==◌, if◌then◌else◌, length, keep, any, is_empty,
}
use sitewalk.Base.Text.{Text, text_eq}
use sitewalk.Base.TextMap.{TextMap, get, insert}
use sitewalk.Base.CharTables.{CharTables}
use sitewalk.Base.Float.{Floats}
use sitewalk.Store.Domain.{CapturedItem}
use sitewalk.Pipeline.SpokenPrice.Label.{
  Reading, plain, self_priced, statement, read, tokenize, member,
}

-- `items` and `amounts`, a map from ids to cents.
pub record FoldedPrices : Type 0 where
  pub items : List CapturedItem
  pub amounts : TextMap ℕ

unfoldable pub unfolded : List CapturedItem → FoldedPrices
unfolded items = record { items = items; amounts = [] }

-- An item with its index and its reading.
pub record Line : Type 0 where
  pub index : ℕ
  pub item : CapturedItem
  pub reading : Reading

-- The four sets and maps of the loop.
pub record FoldState : Type 0 where
  pub amounts : TextMap ℕ
  pub titles : TextMap Text
  pub folded_away : List Text
  pub claimed : List ℕ

abbrev pub is_plain : Reading → Bool
is_plain plain = true
is_plain (self_priced cents title) = false
is_plain (statement cents title tokens) = false

-- `!claimed.contains(&index) && matches!(readings[index], Reading::Plain)`
unfoldable pub is_open : List ℕ → Line → Bool
is_open claimed l = not (any (λ i. l.index == i) claimed) && is_plain l.reading

module _ (fl : Floats) (tables : CharTables) where
  open fl use {F64, of_int, div, le_f64}

  unfoldable pub read_lines : ℕ → List CapturedItem → List Line
  unfolding read
  read_lines n [] = []
  read_lines n (item ∷ items) =
      record { index = n; item = item; reading = read tables item.text } ∷ read_lines (suc n) items

  unfoldable pub aboutness : List Text → Line → F64
  unfolding tokenize
  aboutness wanted l =
      let tokens = tokenize tables l.item.text in
      div (of_int (length (keep (member wanted) tokens))) (of_int (length tokens))

  -- A line on which the label's price can land.
  unfoldable pub is_candidate : List Text → List ℕ → Line → Bool
  unfolding is_open tokenize text_eq
  is_candidate wanted claimed l =
      is_open claimed l && any (member wanted) (tokenize tables l.item.text)

  -- `aboutness > top` is that `aboutness <= top` fails: both are numbers.
  better : List Text → Option Line → Line → Option Line
  unfolding aboutness
  better wanted none l = some l
  better wanted (some top) l =
      if le_f64 (aboutness wanted l) (aboutness wanted top) then some top else some l

  unfoldable pub target_from : List Text → List ℕ → Option Line → List Line → Option Line
  unfolding is_candidate better
  target_from wanted claimed best [] = best
  target_from wanted claimed best (l ∷ ls) =
      target_from wanted claimed
        (if is_candidate wanted claimed l then better wanted best l else best) ls

  unfoldable pub target_for : List Text → List ℕ → List Line → Option Line
  unfolding target_from
  target_for label_tokens claimed ls =
      if is_empty label_tokens then none else target_from label_tokens claimed none ls

  unfoldable pub is_covered : List Text → List ℕ → Line → Bool
  unfolding is_open tokenize text_eq
  is_covered have claimed l =
      let theirs = tokenize tables l.item.text in
      is_open claimed l && (not (is_empty theirs) && not (any (λ t. not (member have t)) theirs))

  first_covered : List Text → List ℕ → List Line → Option Line
  unfolding is_covered
  first_covered have claimed [] = none
  first_covered have claimed (l ∷ ls) =
      let rest = first_covered have claimed ls in if is_covered have claimed l then some l else rest

  unfoldable pub fully_covered_by : List Text → List ℕ → List Line → Option Line
  unfolding first_covered
  fully_covered_by tokens claimed ls =
      if is_empty tokens then none else first_covered tokens claimed ls

pub priced : Line → ℕ → Text → FoldState → FoldState
priced l cents title st = record st {
  amounts = insert l.item.id cents st.amounts;
  titles = insert l.item.id title st.titles;
}

pub absorb : Option Line → FoldState → FoldState
absorb none st = st
absorb (some covered) st = record st {
  claimed = covered.index ∷ st.claimed;
  folded_away = covered.item.id ∷ st.folded_away;
}

pub settle_statement : Line → ℕ → Text → Option Line → FoldState → FoldState
unfolding priced
settle_statement l cents title none st = priced l cents title st
settle_statement l cents title (some target) st = record st {
  claimed = target.index ∷ st.claimed;
  amounts = insert target.item.id cents st.amounts;
  folded_away = l.item.id ∷ st.folded_away;
}

pub retitled : Option Text → CapturedItem → CapturedItem
retitled none item = item
retitled (some title) item = record item { text = title }

unfoldable pub kept_items : FoldState → List CapturedItem → List CapturedItem
unfolding retitled text_eq
kept_items st [] = []
kept_items st (item ∷ items) =
    let rest = kept_items st items in
    if member st.folded_away item.id then rest else retitled (get item.id st.titles) item ∷ rest

abbrev pub no_folds : FoldState
no_folds = record { amounts = []; titles = []; folded_away = []; claimed = [] }

module _ (fl : Floats) (tables : CharTables) where
  -- The body of the loop.
  unfoldable pub fold_line : List Line → Line → Reading → FoldState → FoldState
  unfolding priced absorb settle_statement fully_covered_by target_for tokenize
  fold_line ls l plain st = st
  fold_line ls l (self_priced cents title) st =
      absorb (fully_covered_by fl tables (tokenize tables title) st.claimed ls)
        (priced l cents title st)
  fold_line ls l (statement cents title tokens) st =
      settle_statement l cents title (target_for fl tables tokens st.claimed ls) st

  unfoldable pub fold_lines : List Line → List Line → FoldState → FoldState
  unfolding fold_line
  fold_lines ls [] st = st
  fold_lines ls (l ∷ rest) st = fold_lines ls rest (fold_line ls l l.reading st)

  unfoldable pub fold_spoken_prices : List CapturedItem → FoldedPrices
  unfolding read_lines fold_lines kept_items
  fold_spoken_prices items =
      let ls = read_lines fl tables 0 items in
      let st = fold_lines ls ls no_folds in
      record { items = kept_items st items; amounts = st.amounts }
