-- ===== src/Store/Activity.antt =====
-- crates/murmur-core/src/reflection.rs: the activity that a reflection reads.
use sitewalk.Base.{
  ℕ, Bool, false, ◌&&◌, ◌||◌, Option, none, some, List, [], ◌∷◌, ◌++◌, if◌then◌else◌, ltb, leb,
  ◌==◌, take,
}
use mathlib.Core.List.{reverse}
use sitewalk.Base.Text.{Text, codes, text_ltb}
use sitewalk.Base.TextMap.{get}
use sitewalk.Base.Result.{ok}
use sitewalk.Store.Domain.{Session, Job}
use sitewalk.Store.Op.{Row, Table, Env, Op, ◌>>=◌, read, is_live, select_rows}
use sitewalk.Store.Usage.{last_reflected_at}
use sitewalk.Store.Schemas.Validate.{is_blank}

abbrev excerpt_chars : ℕ
excerpt_chars = 500

-- `deleted_at IS NULL AND ended_at IS NOT NULL AND ended_at >= ?1`
unfoldable pub is_recent : ℕ → Row Session → Bool
unfolding is_live
is_recent since r = is_live r && elim r.value.ended_at [ none ↦ false | some at ↦ leb since at ]

ended : Session → ℕ
ended s = elim s.ended_at [ none ↦ 0 | some at ↦ at ]

-- `ORDER BY s.ended_at DESC, s.id DESC`
goes_before : Session → Session → Bool
unfolding ended text_ltb
goes_before a b = ltb (ended b) (ended a) || ended a == ended b && text_ltb b.id a.id

placed : Session → List Session → List Session
unfolding goes_before
placed s [] = s ∷ []
placed s (t ∷ ts) = let rest = placed s ts in if goes_before s t then s ∷ t ∷ ts else t ∷ rest

unfoldable pub newest_first : List Session → List Session
unfolding placed
newest_first [] = []
newest_first (s ∷ ss) = placed s (newest_first ss)

-- The summary, or the start of the transcript if that says nothing.
unfoldable pub activity_body : Session → Text
activity_body s = elim s.summary [
  | none ↦ take excerpt_chars s.transcript
  | some summary ↦ if is_blank summary then take excerpt_chars s.transcript else summary
]

-- `LEFT JOIN jobs`, on any row of the job
job_name : Table Job → Option Text → Option Text
unfolding get
job_name jobs none = none
job_name jobs (some id) = elim (get id jobs) [ none ↦ none | some r ↦ some r.value.name ]

entry : Option Text → Text → Text
entry none body = body
entry (some name) body = codes "[" ++ (name ++ (codes "] " ++ body))

unfoldable pub entries_of : Table Job → List Session → List Text
unfolding activity_body job_name entry
entries_of jobs [] = []
entries_of jobs (s ∷ ss) =
    let rest = entries_of jobs ss in
    if is_blank (activity_body s)
    then rest
    else entry (job_name jobs s.job_id) (activity_body s) ∷ rest

module _ {env : Env} where
  unfoldable pub activity_for_reflection : ℕ → Op env (List Text)
  unfolding ◌>>=◌ last_reflected_at read select_rows is_recent newest_first entries_of
  activity_for_reflection max_sessions = do
    since ← last_reflected_at
    read (λ db. ok (
        reverse (
          entries_of db.jobs
            (take max_sessions (newest_first (select_rows (is_recent since) db.sessions))))))
