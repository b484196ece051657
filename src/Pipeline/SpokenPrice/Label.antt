-- ===== src/Pipeline/SpokenPrice/Label.antt =====
-- crates/murmur-core/src/pipeline/spoken_price.rs: the label that is left without its amount, its
-- content words, and the reading of an item's text.
use sitewalk.Base.{
  ℕ, ◌+◌, ◌-◌, Bool, false, not, ◌&&◌, ◌||◌, none, some, List, [], ◌∷◌, ◌++◌, map, ltb, leb, ◌==◌,
  if◌then◌else◌, length, take, drop, keep, any, drop_while, is_empty,
}
use mathlib.Core.List.{reverse}
use sitewalk.Base.Text.{Text, codes, text_eq, is_whitespace, to_ascii_lower, is_prefix}
use sitewalk.Base.CharTables.{CharTables}
use sitewalk.Pipeline.SpokenPrice.Amount.{Amount, is_ascii_digit, find_amount}

abbrev pub trim_matches : (ℕ → Bool) → Text → Text
trim_matches p s = reverse (drop_while p (reverse (drop_while p s)))

abbrev pub trim : Text → Text
trim s = trim_matches is_whitespace s

-- The characters cut off both ends of a label; the two dashes are U+2013 and U+2014.
abbrev pub is_joining : ℕ → Bool
is_joining c = any (λ d. c == d) (codes " \t-–—:,.;()@")

abbrev pub lower : Text → Text
lower s = map to_ascii_lower s

unfoldable pub strip_lead : Text → Text → Text
unfolding is_prefix to_ascii_lower
strip_lead lead label = if is_prefix lead (lower label) then drop (length lead) label else label

unfoldable pub ends_with : Text → Text → Bool
unfolding is_prefix
ends_with tail s = is_prefix (reverse tail) (reverse s)

unfoldable pub strip_tail : Text → Text → Text
unfolding ends_with to_ascii_lower
strip_tail tail label =
    if ends_with tail (lower label) then take (length label - length tail) label else label

-- `for x in […] { label = f(x, label) }`
unfoldable pub strip_each : (Text → Text → Text) → List Text → Text → Text
strip_each f [] label = label
strip_each f (x ∷ xs) label = strip_each f xs (f x label)

abbrev pub leads : List Text
leads = codes "for " ∷ codes "at " ∷ codes "on " ∷ codes "of " ∷ codes "is " ∷ codes "was " ∷ []

abbrev pub tails : List Text
tails = codes " for" ∷ codes " at" ∷ codes " on" ∷ codes " of" ∷ codes " is" ∷ codes " was" ∷ []

unfoldable pub strip_amount : Text → Amount → Text
unfolding strip_lead strip_tail strip_each
strip_amount text found =
    let label = trim_matches is_joining (take found.start text ++ (32 ∷ drop found.end text)) in
    trim_matches is_joining (strip_each strip_tail tails (strip_each strip_lead leads label))

abbrev pub stopwords : List Text
stopwords =
    codes "the"
    ∷ codes "a"
    ∷ codes "an"
    ∷ codes "of"
    ∷ codes "for"
    ∷ codes "and"
    ∷ codes "to"
    ∷ codes "on"
    ∷ codes "in"
    ∷ codes "at"
    ∷ codes "all"
    ∷ codes "some"
    ∷ codes "any"
    ∷ codes "with"
    ∷ codes "plus"
    ∷ codes "per"
    ∷ codes "each"
    ∷ codes "is"
    ∷ codes "it"
    ∷ codes "that"
    ∷ codes "this"
    ∷ codes "there"
    ∷ codes "was"
    ∷ codes "were"
    ∷ []

-- `len` of a `str`: its UTF-8 bytes.
unfoldable pub byte_len : Text → ℕ
byte_len [] = 0
byte_len (c ∷ s) =
    (if ltb c 0x80 then 1 else if ltb c 0x800 then 2 else if ltb c 0x10000 then 3 else 4)
    + byte_len s

abbrev pub all_digits : Text → Bool
all_digits w = not (any (λ c. not (is_ascii_digit c)) w)

abbrev pub member : List Text → Text → Bool
member ws w = any (text_eq w) ws

unfoldable pub singular : Text → Text
unfolding byte_len ends_with
singular word =
    if ltb 3 (byte_len word) && (ends_with (codes "s") word && not (ends_with (codes "ss") word))
    then take (length word - 1) word
    else word

unfoldable pub is_content : Text → Bool
unfolding byte_len text_eq
is_content w = leb 3 (byte_len w) && (not (member stopwords w) && not (all_digits w))

module _ (tables : CharTables) where
  -- The pieces between characters that are not alphanumeric; `word` is the one being read.
  unfoldable pub pieces_from : Text → Text → List Text
  pieces_from word [] = word ∷ []
  pieces_from word (c ∷ s) =
      let next = pieces_from [] s in
      let longer = pieces_from (word ++ (c ∷ [])) s in
      if tables.is_alphanumeric c then longer else word ∷ next

  unfoldable pub tokenize : Text → List Text
  unfolding pieces_from is_content singular to_ascii_lower
  tokenize text =
      map singular
        (keep is_content (map lower (keep (λ w. not (is_empty w)) (pieces_from [] text))))

  starts_with_digit : Text → Bool
  starts_with_digit [] = false
  starts_with_digit (c ∷ s) = is_ascii_digit c

  unfoldable pub has_quantity : Text → Bool
  unfolding pieces_from starts_with_digit
  has_quantity label =
      any (λ w. not (is_empty w) && (all_digits w || starts_with_digit w)) (pieces_from [] label)

  unfoldable pub capitalized : Text → Text
  capitalized [] = []
  capitalized (c ∷ s) = tables.to_uppercase c ++ s

-- How an item relates to money: its cents, its title, and for a bare price the words of its label.
pub data Reading : Type 0 where
  plain : Reading
  self_priced : ℕ → Text → Reading
  statement : ℕ → Text → List Text → Reading

abbrev pub max_label_words : ℕ
max_label_words = 3

module _ (tables : CharTables) where
  read_label : Text → Amount → Text → Reading
  unfolding tokenize has_quantity capitalized
  read_label text found label =
      let title = if is_empty label then trim text else capitalized tables label in
      let tokens = tokenize tables label in
      if ltb max_label_words (length tokens) || has_quantity tables label
      then self_priced found.cents title
      else statement found.cents title tokens

  unfoldable pub read : Text → Reading
  unfolding find_amount strip_amount read_label
  read text = elim (find_amount tables text) [
    | none ↦ plain
    | some found ↦ read_label text found (strip_amount text found)
  ]
