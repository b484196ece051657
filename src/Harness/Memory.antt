-- ===== src/Harness/Memory.antt =====
-- crates/harness/src/memory/mod.rs: the agent's sectioned memory. A method that mutates the memory
-- returns its result and the new memory.
pub mod Lookup
pub mod Evict
pub mod Weight
pub mod Clamp
pub mod Prune
pub mod Vocabulary
use sitewalk.Base.{
  ℕ, zero, suc, ◌+◌, ◌-◌, Bool, true, false, ◌&&◌, ◌||◌, not, Option, none, some, List, [], ◌∷◌,
  ◌++◌, map, ltb, leb, ◌==◌, if◌then◌else◌, length, keep, any, is_empty,
}
use sitewalk.Base.Text.{Text, codes, text_eq, text_ltb, starts_with_char, eq_ignore_ascii_case}
use sitewalk.Base.Text.Split.{split_whitespace, join}
use sitewalk.Base.TextMap.{TextMap, get, insert, remove}

abbrev pub default_word_cap : ℕ
default_word_cap = 500

abbrev pub vocabulary_section : Text
vocabulary_section = codes "vocabulary"

abbrev pub max_vocabulary_terms : ℕ
max_vocabulary_terms = 100

abbrev pub seed_marker_section : Text
seed_marker_section = codes "_seeds"

unfoldable pub is_internal_section : Text → Bool
unfolding starts_with_char
is_internal_section name = starts_with_char b'_' name

abbrev pub max_vocabulary_term_words : ℕ
max_vocabulary_term_words = 6

pub data VocabAdd : Type 0 where
  added duplicate full empty too_long : VocabAdd

pub data FactSource : Type 0 where
  inferred stated corrected : FactSource

unfoldable pub rank : FactSource → ℕ
rank inferred = 0
rank stated = 1
rank corrected = 2

unfoldable pub is_corrected : FactSource → Bool
is_corrected corrected = true
is_corrected _ = false

pub record MemoryEntry : Type 0 where
  pub text : Text
  pub last_touched : ℕ
  pub source : FactSource
  pub session : Option Text

pub record Memory : Type 0 where
  pub sections : TextMap (List MemoryEntry)

unfoldable pub normalize_term : Text → Text
normalize_term term = join (32 ∷ []) (split_whitespace term)

-- `sections.get(name)`, with the empty list for a missing section
unfoldable pub entries : Memory → Text → List MemoryEntry
entries m name = elim (get name m.sections) [ none ↦ [] | some es ↦ es ]

-- An entry that is mentioned again: the source and session change only upwards.
unfoldable pub refresh : ℕ → FactSource → Option Text → MemoryEntry → MemoryEntry
unfolding rank
refresh now source session e =
    if ltb (rank e.source) (rank source)
    then record e { last_touched = now; source = source; session = session }
    else record e { last_touched = now }

-- `entries.iter_mut().find(..)`, and `push` where nothing is found
unfoldable pub touch : Text → ℕ → FactSource → Option Text → List MemoryEntry → List MemoryEntry
unfolding refresh
touch text now source session [] =
    record { text = text; last_touched = now; source = source; session = session } ∷ []
touch text now source session (e ∷ es) =
    let rest = touch text now source session es in
    if text_eq e.text text then refresh now source session e ∷ es else e ∷ rest

unfoldable pub remember_from : Memory → Text → Text → ℕ → FactSource → Option Text → Memory
unfolding touch entries
remember_from m section text now source session = record {
  sections = insert section (touch text now source session (entries m section)) m.sections;
}

unfoldable pub remember : Memory → Text → Text → ℕ → Memory
unfolding remember_from
remember m section text now = remember_from m section text now inferred none

-- A section left empty is dropped.
unfoldable pub put_entries :
    Text → List MemoryEntry → TextMap (List MemoryEntry) → TextMap (List MemoryEntry)
put_entries section kept sections =
    if is_empty kept then remove section sections else insert section kept sections

abbrev pub other_text : Text → MemoryEntry → Bool
other_text text e = not (text_eq e.text text)

forget_in : Memory → Text → Text → Option (List MemoryEntry) → Bool × Memory
forget_in m section text none = (false, m)
forget_in m section text (some es) =
    let kept = keep (other_text text) es in
    (ltb (length kept) (length es), record { sections = put_entries section kept m.sections })

unfoldable pub forget : Memory → Text → Text → Bool × Memory
unfolding forget_in put_entries
forget m section text = forget_in m section text (get section m.sections)

unfoldable pub entry_words : MemoryEntry → ℕ
entry_words e = length (split_whitespace e.text)

-- A sum over the entries of the sections that are not internal.
unfoldable pub weigh_entries : (MemoryEntry → ℕ) → List MemoryEntry → ℕ
weigh_entries f [] = 0
weigh_entries f (e ∷ es) = f e + weigh_entries f es

unfoldable pub weigh : (MemoryEntry → ℕ) → TextMap (List MemoryEntry) → ℕ
unfolding weigh_entries is_internal_section
weigh f [] = 0
weigh f ((name, es) ∷ m) =
    let rest = weigh f m in if is_internal_section name then rest else weigh_entries f es + rest

unfoldable pub word_count : Memory → ℕ
unfolding weigh entry_words
word_count m = weigh entry_words m.sections

unfoldable pub section_texts : Memory → Text → List Text
unfolding entries
section_texts m section = map (λ (e : MemoryEntry). e.text) (entries m section)

render_entries : Bool → List MemoryEntry → Text
render_entries annotate [] = []
render_entries annotate (e ∷ es) =
    codes "- "
    ++ (e.text
        ++ ((if annotate && is_corrected e.source then codes " [corrected]" else [])
            ++ (10 ∷ render_entries annotate es)))

-- `out` is the text so far; a blank line stands before each section but the first.
render_from : Bool → Text → TextMap (List MemoryEntry) → Text
unfolding render_entries is_corrected
render_from annotate out [] = out
render_from annotate out ((name, es) ∷ m) =
    render_from annotate
      (if is_internal_section name || is_empty es
        then out
        else out
          ++ ((if is_empty out then [] else 10 ∷ [])
              ++ (codes "## " ++ (name ++ (10 ∷ render_entries annotate es)))))
      m

unfoldable pub render : Memory → Bool → Text
unfolding render_from
render m annotate_corrected = render_from annotate_corrected [] m.sections

unfoldable pub to_prompt : Memory → Text
unfolding render
to_prompt m = render m false

unfoldable pub is_fresh : ℕ → MemoryEntry → Bool
unfolding is_corrected
is_fresh cutoff e = is_corrected e.source || leb cutoff e.last_touched

-- `sections.retain(..)`: the count of removed entries, and what is kept.
unfoldable pub prune_sections : ℕ → TextMap (List MemoryEntry) → ℕ × TextMap (List MemoryEntry)
unfolding is_fresh
prune_sections cutoff [] = (0, [])
prune_sections cutoff ((name, es) ∷ m) =
    let (removed, rest) = prune_sections cutoff m in
    let kept = keep (is_fresh cutoff) es in
    if is_internal_section name
    then (removed, (name, es) ∷ rest)
    else (length es - length kept + removed, if is_empty kept then rest else (name, kept) ∷ rest)

unfoldable pub prune_stale : Memory → ℕ → ℕ → ℕ × Memory
unfolding prune_sections
prune_stale m now max_age_secs =
    let (removed, kept) = prune_sections (now - max_age_secs) m.sections in
    (removed, record { sections = kept })
