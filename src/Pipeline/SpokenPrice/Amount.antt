-- ===== src/Pipeline/SpokenPrice/Amount.antt =====
-- crates/murmur-core/src/pipeline/spoken_price.rs: the one amount of money in a text. Positions
-- count characters; every character that a position is tested for is a single byte.
pub mod Fuel
use sitewalk.Base.{
  ℕ, zero, suc, ◌+◌, ◌-◌, ◌*◌, ◌^◌, max, Bool, true, false, not, ◌&&◌, ◌||◌, Option, none, some,
  List, [], ◌∷◌, map, ltb, leb, ◌==◌, if◌then◌else◌, length, take, drop, keep, drop_while,
  take_while, is_empty,
}
use sitewalk.Base.Text.{Text, codes, is_whitespace, to_ascii_lower, is_prefix}
use sitewalk.Base.CharTables.{CharTables}

pub record Amount : Type 0 where
  pub cents : ℕ
  -- the first position of the money token, and the position after it
  pub start : ℕ
  pub end : ℕ

abbrev pub i64_max : ℕ
i64_max = 2 ^ 63 - 1

abbrev pub is_ascii_digit : ℕ → Bool
is_ascii_digit c = leb b'0' c && leb c b'9'

abbrev pub is_ascii_alphanumeric : ℕ → Bool
is_ascii_alphanumeric c = is_ascii_digit c || leb b'A' c && leb c b'Z' || leb b'a' c && leb c b'z'

abbrev pub trim_start : Text → Text
trim_start s = drop_while is_whitespace s

-- A test of the character at a position, false past the end.
unfoldable pub char_is : (ℕ → Bool) → Text → ℕ → Bool
char_is p text i = elim (drop i text) [ [] ↦ false | c ∷ rest ↦ p c ]

unfoldable pub digits_value : ℕ → Text → ℕ
digits_value acc [] = acc
digits_value acc (c ∷ s) = digits_value (10 * acc + (c - b'0')) s

-- A number that fits an `i64`.
unfoldable pub checked_i64 : ℕ → Option ℕ
checked_i64 n = if leb n i64_max then some n else none

-- `whole.parse::<i64>().ok()?.checked_mul(100)?`
unfoldable pub whole_cents : Text → Option ℕ
unfolding digits_value checked_i64
whole_cents whole = elim (checked_i64 (digits_value 0 whole)) [
  | none ↦ none
  | some n ↦ checked_i64 (n * 100)
]

-- Cents count only as exactly two digits.
unfoldable pub has_fraction : Text → ℕ → Bool
unfolding char_is
has_fraction text i =
    ltb (i + 2) (length text)
    && char_is (λ c. c == b'.') text i
    && char_is is_ascii_digit text (i + 1)
    && (leb (i + 3) (length text) && char_is is_ascii_digit text (i + 2))
    && (leb (length text) (i + 3) || not (char_is is_ascii_digit text (i + 3)))

unfoldable pub with_fraction : Text → ℕ → ℕ → Option (ℕ × ℕ)
unfolding has_fraction digits_value checked_i64
with_fraction text i cents =
    if has_fraction text i
    then elim (checked_i64 (cents + digits_value 0 (take 2 (drop (i + 1) text)))) [
      | none ↦ none
      | some total ↦ some (total, i + 3)
    ]
    else some (cents, i)

abbrev pub digit_or_comma : ℕ → Bool
digit_or_comma c = is_ascii_digit c || c == b','

-- The cents of the number at a position, and the position after it.
unfoldable pub read_number : Text → ℕ → Option (ℕ × ℕ)
unfolding whole_cents with_fraction
read_number text at =
    let run = take_while digit_or_comma (drop at text) in
    let whole = keep is_ascii_digit run in
    if is_empty whole then none else elim (whole_cents whole) [
      | none ↦ none
      | some cents ↦ with_fraction text (at + length run) cents
    ]

unfoldable pub has_currency_word : Text → ℕ → Bool
unfolding is_prefix to_ascii_lower
has_currency_word text after =
    let rest = map to_ascii_lower (trim_start (drop after text)) in
    is_prefix (codes "dollar") rest || is_prefix (codes "buck") rest

unfoldable pub is_rate : Text → ℕ → Bool
unfolding is_prefix to_ascii_lower
is_rate text end =
    let rest = map to_ascii_lower (trim_start (drop end text)) in
    is_prefix (codes "/") rest
    || is_prefix (codes "per ") rest
    || is_prefix (codes "an hour") rest
    || is_prefix (codes "a yard") rest
    || is_prefix (codes "each") rest

-- A round of a loop: it returns, or it goes on at a position with what is found so far.
pub data Round : Type 0 where
  done : Option Amount → Round
  go : ℕ → Option Amount → Round

module _ (tables : CharTables) where
  unfoldable pub end_of_currency_word : Text → ℕ → ℕ
  end_of_currency_word text after =
      let trimmed = trim_start (drop after text) in
      let offset = after + (length text - after - length trimmed) in
      offset + length (take_while tables.is_alphabetic trimmed)

  -- What an amount at `start` does to the search: a rate or a second amount ends it with nothing.
  unfoldable pub take_amount : Text → Option Amount → ℕ → ℕ → ℕ → Round
  take_amount text none start end cents =
      if is_rate text end
      then done none
      else go end (some (record { cents = cents; start = start; end = end }))
  take_amount text (some found) start end cents = done none

  -- A number at `i`, up to `after`: it counts at a boundary, with a dollar sign or a currency word.
  unfoldable pub read_token : Text → ℕ → Option Amount → Bool → Bool → ℕ × ℕ → Round
  unfolding end_of_currency_word take_amount
  read_token text i found boundary dollar_first (value, after) =
      if not boundary || not dollar_first && not (has_currency_word text after)
      then go (max after (i + 1)) found
      else take_amount text found i
          (if dollar_first then after else end_of_currency_word text after) value

  -- The body of the loop of `find_amount`, and its test.
  unfoldable pub round : Text → ℕ → Option Amount → Round
  unfolding char_is read_token
  round text i found =
      let dollar_first = char_is (λ c. c == b'$') text i in
      let boundary = i == 0 || not (char_is is_ascii_alphanumeric text (i - 1)) in
      if not (ltb i (length text))
      then done found
      else elim (read_number text (if dollar_first then i + 1 else i)) [
        | none ↦ go (i + 1) found
        | some number ↦ read_token text i found boundary dollar_first number
      ]

  -- The loop, on fuel.
  unfoldable pub scan_amount : Text → ℕ → ℕ → Option Amount → Option Amount
  unfolding round
  scan_amount text zero i found = found
  scan_amount text (suc fuel) i found = elim (round text i found) [
    | done result ↦ result
    | go next found' ↦ scan_amount text fuel next found'
  ]

  unfoldable pub find_amount : Text → Option Amount
  unfolding scan_amount
  find_amount text = scan_amount text (length text) 0 none
