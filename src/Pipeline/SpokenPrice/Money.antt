-- ===== src/Pipeline/SpokenPrice/Money.antt =====
-- crates/murmur-core/src/pipeline/spoken_price.rs: the invariant of the fold. Money is never lost,
-- and each line that goes has a reason.
use sitewalk.Base.{
  ℕ, ◌+◌, ◌≡◌, ap, true, false, not, List, [], ◌∷◌, any, map, Bool-cases, arith, inl, inr, ◌==◌,
}
use sitewalk.Base.Text.{Text, text_eq, text_eq_iff}
use sitewalk.Base.CharTables.{CharTables}
use sitewalk.Base.Members.{In, AreDistinct, Differs, same_member}
use sitewalk.Pipeline.SpokenPrice.Label.{Reading, plain, self_priced, statement, tokenize, member}
use sitewalk.Pipeline.SpokenPrice.Ledger.{paper_sum, IsUntouched, IsPaid}
use sitewalk.Pipeline.SpokenPrice.{Line, FoldState, is_plain, is_open}

abbrev pub line_id : Line → Text
line_id l = l.item.id

abbrev pub cents_of : Reading → ℕ
cents_of plain = 0
cents_of (self_priced cents title) = cents
cents_of (statement cents title tokens) = cents

abbrev pub said : List Line → ℕ
said [] = 0
said (l ∷ ls) = cents_of l.reading + said ls

module _ (tables : CharTables) (ls : List Line) (Stands : Text → ℕ → Type 0) where
  -- Why a line is not in the document: it only states a price, which stands on a work line that
  -- shares a word with its label; or it is a bare line all of whose words are in the title of a
  -- priced line. The line of that other id stands, with the amount.
  pub data Reason : Line → Type 0 where
    moved :
        (l t : Line) (cents : ℕ) (title : Text) (tokens : List Text)
        → l.reading ≡ statement cents title tokens
        → In t ls
        → is_plain t.reading ≡ true
        → any (member tokens) (tokenize tables t.item.text) ≡ true
        → Stands (line_id t) cents
        → Reason l
    covered :
        (l s : Line) (cents : ℕ) (title : Text)
        → is_plain l.reading ≡ true
        → In s ls
        → s.reading ≡ self_priced cents title
        → any (λ w. not (member (tokenize tables title) w)) (tokenize tables l.item.text) ≡ false
        → Stands (line_id s) cents
        → Reason l

module _ (tables : CharTables) (ls : List Line) where
  -- `rest` are the lines to come, `total` is the sum of the amounts of the lines before.
  pub record Fair (rest : List Line) (st : FoldState) (total : ℕ) : Type 0 where
    pub clear :
        (l : Line)
        → In l ls
        → is_open st.claimed l ≡ true
        → IsUntouched st.amounts st.folded_away (line_id l)
    pub ahead :
        (l : Line)
        → In l rest
        → is_plain l.reading ≡ false
        → IsUntouched st.amounts st.folded_away (line_id l)
    pub counted : paper_sum st.amounts st.folded_away (map line_id ls) ≡ total
    pub explained :
        (l : Line)
        → In l ls
        → member st.folded_away (line_id l) ≡ true
        → Reason tables ls (IsPaid st.amounts st.folded_away) l

  pub Reason-later :
      (S S' : Text → ℕ → Type 0) (l : Line)
      → ((m : Line) (c : ℕ) → In m ls → S (line_id m) c → S' (line_id m) c)
      → Reason tables ls S l
      → Reason tables ls S' l
  Reason-later S S' x keep (Reason.moved m t cents title tokens r i p s paid) =
      Reason.moved m t cents title tokens r i p s (keep t cents i paid)
  Reason-later S S' x keep (Reason.covered m s cents title r i e w paid) =
      Reason.covered m s cents title r i e w (keep s cents i paid)

pub is_open-plain :
    (claimed : List ℕ) (l : Line) → is_open claimed l ≡ true → is_plain l.reading ≡ true
unfolding is_open
is_open-plain claimed l h = ground arith

pub is_open-claim :
    (i : ℕ) (claimed : List ℕ) (l : Line)
    → is_open (i ∷ claimed) l ≡ true
    → (is_open claimed l ≡ true) × ((l.index == i) ≡ false)
unfolding is_open
is_open-claim i claimed l h = ground arith

module _ (ls : List Line) (distinct : AreDistinct (map line_id ls)) where
  other_id : (l m : Line) → In l ls → In m ls → (l ≡ m → ⊥) → Differs (line_id l) (line_id m)
  other_id l m i j apart = elim (Bool-cases (text_eq (line_id l) (line_id m))) [
    | inr e ↦ e
    | inl e ↦ absurd (
        apart (same_member line_id l m ls distinct i j ((text_eq_iff (line_id l) (line_id m)).0 e)))
  ]

  pub other_kind :
      (l m : Line)
      → In l ls
      → In m ls
      → is_plain l.reading ≡ false
      → is_plain m.reading ≡ true
      → Differs (line_id l) (line_id m)
  other_kind l m i j p q =
      other_id l m i j (λ e. let same = ap (λ (x : Line). is_plain x.reading) e in cc)

  pub other_index :
      (l m : Line)
      → In l ls
      → In m ls
      → (l.index == m.index) ≡ false
      → Differs (line_id m) (line_id l)
  other_index l m i j h =
      other_id m l j i (λ e. let same = ap (λ (x : Line). x.index) e in ground (arith, same, h))

  pub same_line : (l m : Line) → In l ls → In m ls → text_eq (line_id l) (line_id m) ≡ true → l ≡ m
  same_line l m i j e =
      same_member line_id l m ls distinct i j ((text_eq_iff (line_id l) (line_id m)).0 e)
