-- ===== src/Workflows/Store/Keys.antt =====
-- The primary key of `workflows` in backend/workflows/store.py.
use ryuk.Prelude.{
  String, ◌≡◌, refl, sym, ◌⊎◌, inl, inr, Bool, true, false, none, some, List, [], ◌∷◌, ◌++◌, arith,
  ◌==◌, eq_iff, eq_refl, Bool-cases, All, Has, filter,
}
use mathlib.Core.Path.{subst}
use ryuk.Workflows.Store.Tables.{Workflow, WorkflowStore, find, is_workflow, update_where}

-- An UPDATE that sets neither part of the key.
pub record KeepsKey (f : Workflow → Workflow) : Type 0 where
  pub tenant_kept : (r : Workflow) → (f r).tenant ≡ r.tenant
  pub id_kept : (r : Workflow) → (f r).id ≡ r.id

-- The rows have other keys than `r`.
abbrev pub Apart : Workflow → List Workflow → Type 0
Apart r rows = All (λ q. is_workflow r.tenant r.id q ≡ false) rows

abbrev pub DistinctKeys : List Workflow → Type 0
DistinctKeys [] = Unit
DistinctKeys (r ∷ rows) = Apart r rows × DistinctKeys rows

-- Every row is the one that its key selects.
abbrev pub IsKeyed : WorkflowStore → Type 0
IsKeyed s = DistinctKeys s.workflows

Apart-Has :
    (r q : Workflow) (rows : List Workflow)
    → Apart r rows
    → Has rows q
    → is_workflow r.tenant r.id q ≡ false
Apart-Has r q [] a h = absurd h
Apart-Has r q (y ∷ ys) a (inl e) = rw e at a.0
Apart-Has r q (y ∷ ys) a (inr h) = Apart-Has r q ys a.1 h

apart_sym :
    (r q : Workflow) → is_workflow r.tenant r.id q ≡ false → is_workflow q.tenant q.id r ≡ false
apart_sym r q h =
    ground (
      arith,
      eq_iff q.tenant r.tenant,
      eq_iff r.tenant q.tenant,
      eq_iff q.id r.id,
      eq_iff r.id q.id,
    )

find_head :
    (r : Workflow) (rows : List Workflow) → find (is_workflow r.tenant r.id) (r ∷ rows) ≡ some r
unfolding find
find_head r rows = ground (arith, eq_refl r.tenant, eq_refl r.id)

pub find-Has :
    (rows : List Workflow) (r : Workflow)
    → DistinctKeys rows
    → Has rows r
    → find (is_workflow r.tenant r.id) rows ≡ some r
unfolding find
find-Has [] r d h = absurd h
find-Has (q ∷ rows) r d (inl e) =
    subst (λ y. find (is_workflow r.tenant r.id) (y ∷ rows) ≡ some r) (sym e) (find_head r rows)
find-Has (q ∷ rows) r d (inr h) =
    rw (apart_sym q r (Apart-Has q r rows d.0 h)) (find-Has rows r d.1 h)

Apart-filter :
    (r : Workflow) (p : Workflow → Bool) (rows : List Workflow)
    → Apart r rows
    → Apart r (filter p rows)
unfolding filter
Apart-filter r p [] a = tt
Apart-filter r p (q ∷ rows) a = elim (Bool-cases (p q)) [
  | inl passes ↦ rw passes (a.0, Apart-filter r p rows a.1)
  | inr fails ↦ rw fails (Apart-filter r p rows a.1)
]

pub DistinctKeys-filter :
    (p : Workflow → Bool) (rows : List Workflow) → DistinctKeys rows → DistinctKeys (filter p rows)
unfolding filter
DistinctKeys-filter p [] d = tt
DistinctKeys-filter p (q ∷ rows) d = elim (Bool-cases (p q)) [
  | inl passes ↦ rw passes (Apart-filter q p rows d.0, DistinctKeys-filter p rows d.1)
  | inr fails ↦ rw fails (DistinctKeys-filter p rows d.1)
]

filter_head :
    (p : Workflow → Bool) (q : Workflow) (rows : List Workflow) (r : Workflow)
    → p q ≡ true
    → Has (filter p (q ∷ rows)) r
    → (q ≡ r) ⊎ Has (filter p rows) r
unfolding filter
filter_head p q rows r passes h = rw passes at h

pub Has-filter :
    (p : Workflow → Bool) (rows : List Workflow) (r : Workflow)
    → Has (filter p rows) r
    → Has rows r × (p r ≡ true)
unfolding filter
Has-filter p [] r h = absurd h
Has-filter p (q ∷ rows) r h = elim (Bool-cases (p q)) [
  | inr fails ↦ let (there, passes) = Has-filter p rows r (rw fails at h) in (inr there, passes)
  | inl passes ↦ elim (filter_head p q rows r passes h) [
    | inl same ↦ (inl same, subst (λ y. p y ≡ true) same passes)
    | inr there ↦ (inr (Has-filter p rows r there).0, (Has-filter p rows r there).1)
  ]
]

pub filter-Has :
    (p : Workflow → Bool) (rows : List Workflow) (r : Workflow)
    → Has rows r
    → p r ≡ true
    → Has (filter p rows) r
unfolding filter
filter-Has p [] r h e = h
filter-Has p (q ∷ rows) r (inl same) e = rw (same, e) (inl refl)
filter-Has p (q ∷ rows) r (inr h) e = elim (Bool-cases (p q)) [
  | inl passes ↦ rw passes (inr (filter-Has p rows r h e))
  | inr fails ↦ rw fails (filter-Has p rows r h e)
]

-- An update keeps the keys.
module _ (u j : String) (f : Workflow → Workflow) (k : KeepsKey f) where
  Apart-update_where :
      (r q : Workflow) (rows : List Workflow)
      → r.tenant ≡ q.tenant
      → r.id ≡ q.id
      → Apart q rows
      → Apart r (update_where (is_workflow u j) f rows)
  unfolding update_where
  Apart-update_where r q [] e g a = tt
  Apart-update_where r q (y ∷ ys) e g a = elim (Bool-cases (is_workflow u j y)) [
    | inl hit ↦
        rw hit (rw (e, g, k.tenant_kept y, k.id_kept y) a.0, Apart-update_where r q ys e g a.1)
    | inr miss ↦ rw miss (rw (e, g) a.0, Apart-update_where r q ys e g a.1)
  ]

  pub DistinctKeys-update_where :
      (rows : List Workflow)
      → DistinctKeys rows
      → DistinctKeys (update_where (is_workflow u j) f rows)
  unfolding update_where
  DistinctKeys-update_where [] d = tt
  DistinctKeys-update_where (y ∷ ys) d = elim (Bool-cases (is_workflow u j y)) [
    | inl hit ↦ rw hit (
      Apart-update_where (f y) y ys (k.tenant_kept y) (k.id_kept y) d.0,
      DistinctKeys-update_where ys d.1,
    )
    | inr miss ↦ rw miss (Apart-update_where y y ys refl refl d.0, DistinctKeys-update_where ys d.1)
  ]

-- A new identifier keeps them apart.
Apart-append :
    (r q : Workflow) (rows : List Workflow)
    → Apart r rows
    → is_workflow r.tenant r.id q ≡ false
    → Apart r (rows ++ q ∷ [])
Apart-append r q [] a h = (h, tt)
Apart-append r q (y ∷ ys) a h = (a.0, Apart-append r q ys a.1 h)

pub DistinctKeys-append :
    (q : Workflow) (rows : List Workflow)
    → DistinctKeys rows
    → find (λ r. r.id == q.id) rows ≡ none
    → DistinctKeys (rows ++ q ∷ [])
unfolding find
DistinctKeys-append q [] d h = (tt, tt)
DistinctKeys-append q (y ∷ ys) d h = (
  Apart-append y q ys d.0 (ground (arith, eq_iff q.id y.id, eq_iff y.id q.id)),
  DistinctKeys-append q ys d.1 (ground arith),
)
