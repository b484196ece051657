-- ===== src/Store/Schemas/Resolve.antt =====
-- crates/murmur-core/src/store/schemas.rs: which schema is the active one.
use sitewalk.Base.{
  ◌≡◌, refl, sym, Bool, true, false, Option, none, some, List, [], ◌∷◌, Bool-cases, arith, inl, inr,
  All,
}
use sitewalk.Base.Text.{Text}
use sitewalk.Base.Result.{ok}
use sitewalk.Base.Members.{In}
use sitewalk.Store.Domain.Documents.{DocumentSchema}
use sitewalk.Store.Op.{Row, Table, Env, State, read, select_rows}
use sitewalk.Store.Schemas.{is_active, precedes, best_from, first_best, resolve_active_schema}

-- No schema of the list precedes this one.
abbrev IsFirst : DocumentSchema → List DocumentSchema → Type 0
IsFirst d ds = All (λ x. precedes x d ≡ false) ds

precedes_trans :
    (a b c : DocumentSchema) → precedes a b ≡ false → precedes b c ≡ false → precedes a c ≡ false
unfolding precedes
precedes_trans a b c h k = ground arith

precedes_asym : (a b : DocumentSchema) → precedes a b ≡ true → precedes b a ≡ false
unfolding precedes
precedes_asym a b h = ground arith

precedes_irrefl : (a : DocumentSchema) → precedes a a ≡ false
unfolding precedes
precedes_irrefl a = ground arith

In-later :
    (b y : DocumentSchema) (es : List DocumentSchema) (d : DocumentSchema)
    → In d (b ∷ es)
    → In d (b ∷ y ∷ es)
In-later b y es d (inl p) = inl p
In-later b y es d (inr i) = inr (inr i)

best_from-IsFirst :
    (best : DocumentSchema) (ds : List DocumentSchema) (d : DocumentSchema)
    → best_from best ds ≡ d
    → In d (best ∷ ds) × IsFirst d (best ∷ ds)
unfolding best_from
best_from-IsFirst best [] d h = (inl (sym h), (rw (sym h) (precedes_irrefl best), tt))
best_from-IsFirst best (x ∷ ds) d h = elim (Bool-cases (precedes x best)) [
  | inl e ↦
      let (here, first) = best_from-IsFirst x ds d (rw e at h) in
      (inr here, (precedes_trans best x d (precedes_asym x best e) first.0, first))
  | inr e ↦
      let (here, first) = best_from-IsFirst best ds d (rw e at h) in
      (In-later best x ds d here, (first.0, (precedes_trans x best d e first.0, first.1)))
]

module _ (p : Row DocumentSchema → Bool) where
  abbrev Selected : Table DocumentSchema → DocumentSchema → Type 0
  Selected t d = (k : Text) × (r : Row DocumentSchema) × In (k, r) t × (p r ≡ true) × (r.value ≡ d)

  In-tail :
      (k : Text) (r : Row DocumentSchema) (t : Table DocumentSchema) (d : DocumentSchema)
      → Selected t d
      → Selected ((k, r) ∷ t) d
  In-tail k r t d (j, q, i, e, v) = (j, q, inr i, e, v)

  In-head :
      (k : Text) (r : Row DocumentSchema) (t : Table DocumentSchema) (d : DocumentSchema)
      → p r ≡ true
      → (In d (select_rows p t) → Selected t d)
      → In d (r.value ∷ select_rows p t)
      → Selected ((k, r) ∷ t) d
  In-head k r t d e rest (inl same) = (k, r, inl refl, e, sym same)
  In-head k r t d e rest (inr i) = In-tail k r t d (rest i)

  In-select_rows :
      (t : Table DocumentSchema) (d : DocumentSchema) → In d (select_rows p t) → Selected t d
  unfolding select_rows
  In-select_rows [] d i = absurd i
  In-select_rows ((k, r) ∷ t) d i = elim (Bool-cases (p r)) [
    | inl e ↦ In-head k r t d e (λ h. In-select_rows t d h) (rw e at i)
    | inr e ↦ In-tail k r t d (In-select_rows t d (rw e at i))
  ]

  All-select_rows :
      (Q : DocumentSchema → Type 0) (t : Table DocumentSchema)
      → All Q (select_rows p t)
      → All (λ (e : Text × Row DocumentSchema). p e.1 ≡ true → Q e.1.value) t
  unfolding select_rows
  All-select_rows Q [] h = tt
  All-select_rows Q ((k, r) ∷ t) h = elim (Bool-cases (p r)) [
    | inl e ↦
        let h' : All Q (r.value ∷ select_rows p t) = rw e at h in
        ((λ _. h'.0), All-select_rows Q t h'.1)
    | inr e ↦
        let h' : All Q (select_rows p t) = rw e at h in
        ((λ g. absurd (ground (arith, e, g))), All-select_rows Q t h')
  ]

-- What the answer says of the table: with none, no row is active for this kind and template; with
-- one, it is an active row's, and no other active row precedes it.
unfoldable pub ResolvedMeans :
    Text → Option Text → Table DocumentSchema → Option DocumentSchema → Type 0
ResolvedMeans kind template t none =
    All (λ (e : Text × Row DocumentSchema). is_active kind template e.1 ≡ true → ⊥) t
ResolvedMeans kind template t (some d) =
    ((k : Text) × (r : Row DocumentSchema) × In (k, r) t
      × (is_active kind template r ≡ true)
      × (r.value ≡ d))
    × All
        (λ (e : Text × Row DocumentSchema).
          is_active kind template e.1 ≡ true → precedes e.1.value d ≡ false)
        t

first_best-means :
    (kind : Text) (template : Option Text) (t : Table DocumentSchema) (ds : List DocumentSchema)
    → select_rows (is_active kind template) t ≡ ds
    → ResolvedMeans kind template t (first_best ds)
unfolding first_best ResolvedMeans
first_best-means kind template t [] e =
    All-select_rows (is_active kind template) (λ _. ⊥) t (rw e tt)
first_best-means kind template t (d ∷ ds) e =
    let (here, first) = best_from-IsFirst d ds _ refl in
    (
      In-select_rows (is_active kind template) t _ (rw e here),
      All-select_rows (is_active kind template) (λ x. precedes x (best_from d ds) ≡ false) t
          (rw e first),
    )

-- Resolving a kind and a template changes nothing and finds the active schema. There is none
-- exactly if no live schema of that kind is for the template or for all. Otherwise it is one of
-- these, and none of them goes before it: those for the template go before those for all, then
-- the ones updated later.
pub resolve_active_schema-means :
    {env : Env} (kind : Text) (template : Option Text) (s : State env)
    → (o : Option DocumentSchema) × (resolve_active_schema kind template s ≡ (ok o, s))
      × ResolvedMeans kind template s.db.document_schemas o
unfolding resolve_active_schema read
resolve_active_schema-means kind template s =
    (_, refl, first_best-means kind template s.db.document_schemas _ refl)
