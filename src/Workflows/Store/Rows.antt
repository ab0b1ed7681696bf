-- ===== src/Workflows/Store/Rows.antt =====
-- Rows that an UPDATE of backend/workflows/store.py leaves under its own WHERE clause.
use ryuk.Prelude.{◌≡◌, ap, Bool, inl, inr, some, List, [], ◌∷◌, Bool-cases, some_inj}
use ryuk.Workflows.Store.Tables.{find, update_where}

pub find-update_self {ℓ} :
    {A : Type ℓ} (p : A → Bool) (f : A → A) (kept : (a : A) → p (f a) ≡ p a) (rows : List A) (r : A)
    → find p rows ≡ some r
    → find p (update_where p f rows) ≡ some (f r)
unfolding find update_where
find-update_self p f kept [] r h = absurd (cc)
find-update_self p f kept (y ∷ ys) r h = elim (Bool-cases (p y)) [
  | inl hit ↦ rw (hit, kept y, hit) (ap some (ap f (some_inj (rw hit at h))))
  | inr miss ↦ rw (miss, miss) (find-update_self p f kept ys r (rw miss at h))
]
