-- ===== src/Pipeline/SpokenPrice/Amount/Fuel.antt =====
-- crates/murmur-core/src/pipeline/spoken_price.rs: the loop of `find_amount` moves on in each round,
-- so as much fuel as there are characters is enough.
use sitewalk.Base.{
  ◌⊎◌, ℕ, zero, suc, ◌+◌, ◌-◌, ◌≤◌, ◌<◌, ◌≡◌, refl, Bool, false, not, ◌||◌, Option, none, some, [],
  ◌∷◌, ltb, ◌==◌, if◌then◌else◌, length, drop, keep, take_while, is_empty, Bool-cases, Option-cases,
  arith, inl, inr, tests,
}
use sitewalk.Base.Text.{Text}
use sitewalk.Base.CharTables.{CharTables}
use sitewalk.Pipeline.SpokenPrice.Amount.{
  Amount, is_ascii_digit, is_ascii_alphanumeric, digit_or_comma, checked_i64, char_is, whole_cents,
  with_fraction, read_number, end_of_currency_word, Round, done, go, read_token, round, take_amount,
  scan_amount,
}

with_fraction-le :
    (text : Text) (i cents v after : ℕ) → with_fraction text i cents ≡ some (v, after) → i ≤ after
unfolding with_fraction checked_i64
with_fraction-le text i cents v after h = ground arith

keep-nil : (p : ℕ → Bool) (s : Text) → is_empty (keep p s) ≡ false → 1 ≤ length s
keep-nil p [] h = cc
keep-nil p (c ∷ s) h = omega arith

read_number-lt : (text : Text) (at v after : ℕ) → read_number text at ≡ some (v, after) → at < after
unfolding read_number
read_number-lt text at v after h =
    let run = take_while digit_or_comma (drop at text) in
    elim (Option-cases (whole_cents (keep is_ascii_digit run))) [
      | inl f ↦ ground (arith, f)
      | inr (c, f) ↦
          let some_digit = keep-nil is_ascii_digit run in
          let on = with_fraction-le text (at + length run) c v after in
          ground (arith, f, some_digit, on)
    ]

module _ (tables : CharTables) (text : Text) where
  end_of_currency_word-le : (after : ℕ) → after ≤ end_of_currency_word tables text after
  unfolding end_of_currency_word
  end_of_currency_word-le after = omega arith

  take_amount-le :
      (found : Option Amount) (start end cents next : ℕ) (found' : Option Amount)
      → take_amount tables text found start end cents ≡ go next found'
      → end ≤ next
  unfolding take_amount
  take_amount-le none start end cents next found' h = ground arith
  take_amount-le (some a) start end cents next found' h = cc

  read_token-lt :
      (i : ℕ) (found : Option Amount) (boundary dollar_first : Bool) (value after next : ℕ)
      (found' : Option Amount)
      → i < after
      → read_token tables text i found boundary dollar_first (value, after) ≡ go next found'
      → i < next
  unfolding read_token
  read_token-lt i found boundary dollar_first value after next found' lt h =
      let end : ℕ = if dollar_first then after else end_of_currency_word tables text after in
      ground (arith, end_of_currency_word-le after, take_amount-le found i end value next found')

  round-past :
      (i : ℕ) (found : Option Amount) → length text ≤ i → round tables text i found ≡ done found
  unfolding round
  round-past i found h = ground arith

  -- A round that goes on moves on.
  round-lt :
      (i : ℕ) (found : Option Amount) (next : ℕ) (found' : Option Amount)
      → round tables text i found ≡ go next found'
      → i < next
  unfolding round
  round-lt i found next found' h =
      let dollar_first = char_is (λ c. c == b'$') text i in
      let boundary = i == 0 || not (char_is is_ascii_alphanumeric text (i - 1)) in
      let at : ℕ = if dollar_first then i + 1 else i in
      elim (Bool-cases (ltb i (length text))) [
        | inr b ↦ let back = rw (round-past i found (omega (tests))) at h in cc
        | inl b ↦ elim (Option-cases (read_number text at)) [
          | inl e ↦ let back = rw e at h in ground (arith, back)
          | inr ((v, after), e) ↦
              let back = rw e at h in
              read_token-lt i found boundary dollar_first v after next found'
                (ground (arith, read_number-lt text at v after e)) (rw b at back)
        ]
      ]

  Round-cases :
      (r : Round)
      → ((o : Option Amount) × (r ≡ done o)) ⊎ ((next : ℕ) × (o : Option Amount) × (r ≡ go next o))
  Round-cases (done o) = inl (o, refl)
  Round-cases (go next o) = inr (next, o, refl)

  -- Fuel past the end of the text changes nothing.
  pub scan_amount-more :
      (fuel i : ℕ) (found : Option Amount)
      → length text ≤ i + fuel
      → scan_amount tables text (suc fuel) i found ≡ scan_amount tables text fuel i found
  unfolding scan_amount
  scan_amount-more zero i found h = rw (scan_amount, round-past i found (omega arith)) refl
  scan_amount-more (suc fuel) i found h = elim (Round-cases (round tables text i found)) [
    | inl (o, e) ↦ rw (scan_amount, e) refl
    | inr (next, o, e) ↦
        rw (scan_amount, e)
          (scan_amount-more fuel next o (omega (arith, round-lt i found next o e)))
  ]
