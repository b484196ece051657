-- ===== src/Base/Text/Split.antt =====
-- `split_whitespace` and `join`, and the round trip between them.
use mathlib.Core.Path.{◌∙◌}
use mathlib.Core.List.{append_assoc, append-nil}
use Prim.Native.Nat.{ℕ}
use mathlib.Core.Path.{◌≡◌, refl, ap, sym}
use mathlib.Core.Bool.{false}
use mathlib.Core.Logic.{inl, inr}
use mathlib.Core.List.{List, [], ◌∷◌, ◌++◌}
use sitewalk.Base.Tests.{if◌then◌else◌, Bool-cases}
use sitewalk.Base.Lists.{is_empty, All}
use sitewalk.Base.Text.{Text, is_whitespace}

-- `word` holds the characters of the word that is being read.
unfoldable pub split_from : Text → Text → List Text
split_from word [] = if is_empty word then [] else word ∷ []
split_from word (c ∷ s) =
    let next = split_from [] s in
    let longer = split_from (word ++ c ∷ []) s in
    if is_whitespace c then if is_empty word then next else word ∷ next else longer

unfoldable pub split_whitespace : Text → List Text
unfolding split_from
split_whitespace s = split_from [] s

unfoldable pub join : Text → List Text → Text
join sep [] = []
join sep (w ∷ []) = w
join sep (w ∷ v ∷ ws) = w ++ (sep ++ join sep (v ∷ ws))

-- No character of it is white space.
abbrev pub IsSolid : Text → Type 0
IsSolid w = All (λ c. is_whitespace c ≡ false) w

abbrev pub IsWord : Text → Type 0
IsWord w = IsSolid w × (is_empty w ≡ false)

IsSolid-snoc : (w : Text) (c : ℕ) → IsSolid w → is_whitespace c ≡ false → IsSolid (w ++ c ∷ [])
IsSolid-snoc [] c h k = (k, tt)
IsSolid-snoc (d ∷ w) c h k = (h.0, IsSolid-snoc w c h.1 k)

is_empty-snoc : (w : Text) (c : ℕ) → is_empty (w ++ c ∷ []) ≡ false
is_empty-snoc [] c = refl
is_empty-snoc (d ∷ w) c = refl

split_from-IsWord : (w s : Text) → IsSolid w → All IsWord (split_from w s)
unfolding split_from
split_from-IsWord [] [] h = tt
split_from-IsWord (d ∷ w) [] h = ((h, refl), tt)
split_from-IsWord w (c ∷ s) h = elim (Bool-cases (is_whitespace c)) [
  | inl e ↦ elim (Bool-cases (is_empty w)) [
    | inl k ↦ rw (e, k) (split_from-IsWord [] s tt)
    | inr k ↦ rw (e, k) ((h, k), split_from-IsWord [] s tt)
  ]
  | inr e ↦ rw e (split_from-IsWord (w ++ c ∷ []) s (IsSolid-snoc w c h e))
]

pub split_whitespace-IsWord : (s : Text) → All IsWord (split_whitespace s)
unfolding split_whitespace
split_whitespace-IsWord s = split_from-IsWord [] s tt

split_from-append : (w v s : Text) → IsSolid v → split_from w (v ++ s) ≡ split_from (w ++ v) s
unfolding split_from
split_from-append w [] s h = rw append-nil
split_from-append w (c ∷ v) s h =
    rw h.0 (
      split_from-append (w ++ c ∷ []) v s h.1
      ∙ ap (λ x. split_from x s) (append_assoc w (c ∷ []) v))

split_from-flush : (w : Text) → is_empty w ≡ false → split_from w [] ≡ w ∷ []
unfolding split_from
split_from-flush w h = rw h

split_from-space : (w s : Text) → is_empty w ≡ false → split_from w (32 ∷ s) ≡ w ∷ split_from [] s
unfolding split_from is_whitespace
split_from-space w s h = rw h

-- Words joined by spaces are split into the same words.
pub split-join : (ws : List Text) → All IsWord ws → split_whitespace (join (32 ∷ []) ws) ≡ ws
unfolding split_whitespace join
split-join [] h = refl
split-join (w ∷ []) h =
    ap (split_from []) (sym (append-nil w))
    ∙ split_from-append [] w [] h.0.0
    ∙ split_from-flush w h.0.1
split-join (w ∷ v ∷ ws) h =
    split_from-append [] w (32 ∷ join (32 ∷ []) (v ∷ ws)) h.0.0
    ∙ split_from-space w (join (32 ∷ []) (v ∷ ws)) h.0.1
    ∙ ap (λ r. w ∷ r) (split-join (v ∷ ws) h.1)
