-- ===== src/Harness/Memory/Weight.antt =====
-- Sums over the entries of a memory, and what they become when a section is replaced.
use sitewalk.Base.{
  ℕ, ◌+◌, ◌≤◌, ◌≡◌, refl, Bool, true, false, Option, none, some, List, [], ◌∷◌, arith, length, keep,
}
use sitewalk.Base.Text.{Text, text_eq_iff, text_ltb, text_ltb_irrefl, text_ltb_trans}
use sitewalk.Base.TextMap.{
  TextMap, get, insert, remove, Above, Sorted, Sorted-insert, Sorted-remove,
}
use sitewalk.Harness.Memory.{
  MemoryEntry, Memory, is_internal_section, weigh_entries, weigh, put_entries, other_text, forget,
  forget_in,
}

-- The map is in the order of its keys, as every `BTreeMap` is.
abbrev pub IsOrdered : Memory → Type 0
IsOrdered m = Sorted m.sections

pub get-Above : {V : Type 0} (k : Text) (m : TextMap V) → Above k m → get k m ≡ none
unfolding get
get-Above k [] a = refl
get-Above k ((j, w) ∷ m) a = ground (arith, text_eq_iff j k, text_ltb_irrefl k, get-Above k m a.1)

get-below :
    {V : Type 0} (k j : Text) (m : TextMap V) → text_ltb k j ≡ true → Above j m → get k m ≡ none
unfolding get
get-below k j [] l a = refl
get-below k j ((i, w) ∷ m) l a =
    ground
      (arith, text_eq_iff i k, text_ltb_irrefl k, text_ltb_trans k j i l a.0, get-below k j m l a.1)

remove-absent : {V : Type 0} (k : Text) (m : TextMap V) → get k m ≡ none → remove k m ≡ m
unfolding get remove
remove-absent k [] h = refl
remove-absent k ((j, w) ∷ m) h = ground (arith, remove-absent k m)

module _ (f : MemoryEntry → ℕ) (k : Text) (outer : is_internal_section k ≡ false) where
  weigh-insert :
      (v es : List MemoryEntry) (m : TextMap (List MemoryEntry))
      → Sorted m
      → get k m ≡ some es
      → weigh f (insert k v m) + weigh_entries f es ≡ weigh f m + weigh_entries f v
  unfolding weigh get insert
  weigh-insert v es [] s h = cc
  weigh-insert v es ((j, w) ∷ m) s h =
      ground (arith, text_eq_iff j k, weigh-insert v es m s.1, get-below k j m)

  weigh-remove :
      (es : List MemoryEntry) (m : TextMap (List MemoryEntry))
      → Sorted m
      → get k m ≡ some es
      → weigh f (remove k m) + weigh_entries f es ≡ weigh f m
  unfolding weigh get remove
  weigh-remove es [] s h = cc
  weigh-remove es ((j, w) ∷ m) s h =
      ground (arith, text_eq_iff j k, weigh-remove es m s.1, get-Above j m s.0, remove-absent k m)

  pub weigh-put :
      (v es : List MemoryEntry) (m : TextMap (List MemoryEntry))
      → Sorted m
      → get k m ≡ some es
      → weigh f (put_entries k v m) + weigh_entries f es ≡ weigh f m + weigh_entries f v
  unfolding put_entries weigh_entries
  weigh-put [] es m s h = omega (arith, weigh-remove es m s h)
  weigh-put (e ∷ v) es m s h = weigh-insert (e ∷ v) es m s h

weigh_entries-keep :
    (f : MemoryEntry → ℕ) (p : MemoryEntry → Bool) (es : List MemoryEntry)
    → weigh_entries f (keep p es) ≤ weigh_entries f es
unfolding weigh_entries
weigh_entries-keep f p [] = omega arith
weigh_entries-keep f p (e ∷ es) = ground (arith, weigh_entries-keep f p es)

pub weigh_entries-length : (es : List MemoryEntry) → weigh_entries (λ e. 1) es ≡ length es
unfolding weigh_entries
weigh_entries-length [] = refl
weigh_entries-length (e ∷ es) = omega (arith, weigh_entries-length es)

Sorted-put :
    (k : Text) (v : List MemoryEntry) (m : TextMap (List MemoryEntry))
    → Sorted m
    → Sorted (put_entries k v m)
unfolding put_entries
Sorted-put k [] m s = Sorted-remove k m s
Sorted-put k (e ∷ v) m s = Sorted-insert k (e ∷ v) m s

forget_in-IsOrdered :
    (m : Memory) (section text : Text) (o : Option (List MemoryEntry))
    → IsOrdered m
    → IsOrdered (forget_in m section text o).1
unfolding forget_in
forget_in-IsOrdered m section text none s = s
forget_in-IsOrdered m section text (some es) s =
    Sorted-put section (keep (other_text text) es) m.sections s

pub forget-IsOrdered :
    (m : Memory) (section text : Text) → IsOrdered m → IsOrdered (forget m section text).1
unfolding forget
forget-IsOrdered m section text s = forget_in-IsOrdered m section text (get section m.sections) s
