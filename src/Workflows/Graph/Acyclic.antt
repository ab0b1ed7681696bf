-- ===== src/Workflows/Graph/Acyclic.antt =====
-- `_require_acyclic` of backend/workflows/graph.py decides whether the dependencies have a cycle.
use ryuk.Prelude.{
  ℕ, zero, suc, ◌≤◌, ◌<◌, String, ◌≡◌, refl, ap, ◌↔◌, ◌≢◌, true, false, not, ◌&&◌, List, [], ◌∷◌,
  arith, ◌⊎◌, inl, inr, if◌then◌else◌, length, filter, contains, is_empty, Bool-cases,
  contains-filter, length-filter-lt, any_of_contains, contains_of_any, eq_refl,
}
use ryuk.Prelude.Dict.{Dict}
use ryuk.Prelude.Result.{ok, err, value_error, no_fuel}
use ryuk.Workflows.Graph.{
  GraphNode, dependencies_of, is_ready, subtract, peel, require_acyclic, dependencies, node_ids,
}

contains-empty : (k : String) (xs : List String) → is_empty xs ≡ true → contains k xs ≡ false
contains-empty k [] h = refl
contains-empty k (x ∷ xs) h = cc

module _ (ds : Dict (List String)) where
  -- `k` depends on `d`, and both are still there.
  pub record Edge (remaining : List String) (k d : String) : Type 0 where
    pub from_there : contains k remaining ≡ true
    pub depends : contains d (dependencies_of ds k) ≡ true
    pub to_there : contains d remaining ≡ true

  -- Each name has a number above those of its dependencies.
  pub record IsRanked (remaining : List String) (rank : String → ℕ) : Type 0 where
    pub falls : (k d : String) → Edge remaining k d → rank d < rank k

  ready_has_none :
      (remaining : List String) (k d : String)
      → Edge remaining k d
      → is_ready ds remaining k ≡ false
  unfolding is_ready
  ready_has_none remaining k d e =
      rw (any_of_contains d (λ x. contains x remaining) (dependencies_of ds k) e.depends e.to_there)

  Edge-of_waiting :
      (remaining : List String) (k : String)
      → contains k remaining ≡ true
      → is_ready ds remaining k ≡ false
      → (d : String) × Edge remaining k d
  unfolding is_ready
  Edge-of_waiting remaining k h e =
      let (d, dep, there) =
        contains_of_any (λ x. contains x remaining) (dependencies_of ds k) (ground arith) in
      (d, record { from_there = h; depends = dep; to_there = there })

  abbrev ready_of : List String → List String
  ready_of remaining = filter (is_ready ds remaining) remaining

  abbrev left_of : List String → List String
  left_of remaining = subtract remaining (ready_of remaining)

  contains-left :
      (k : String) (remaining : List String)
      → contains k (left_of remaining) ≡ (contains k remaining && not (is_ready ds remaining k))
  unfolding subtract
  contains-left k remaining =
      rw
        (
          contains-filter k (λ j. not (contains j (ready_of remaining))) remaining,
          contains-filter k (is_ready ds remaining) remaining,
        )
        (ground arith)

  first_of_ready : (xs : List String) → is_empty xs ≡ false → (k : String) × (contains k xs ≡ true)
  first_of_ready [] h = cc
  first_of_ready (x ∷ xs) h = (x, rw eq_refl)

  length-left :
      (remaining : List String)
      → is_empty (ready_of remaining) ≡ false
      → length (left_of remaining) < length remaining
  unfolding subtract
  length-left remaining h =
      let (k, e) = first_of_ready (ready_of remaining) h in
      length-filter-lt k (λ j. not (contains j (ready_of remaining))) remaining
        (ground (arith, contains-filter k (is_ready ds remaining) remaining)) (rw e)

  Edge-left :
      (remaining : List String) (k d : String) → Edge (left_of remaining) k d → Edge remaining k d
  Edge-left remaining k d e = record {
    from_there = ground (arith, e.from_there, contains-left k remaining);
    depends = e.depends;
    to_there = ground (arith, e.to_there, contains-left d remaining);
  }

  -- A loop that ends well gives each name the number of the round after which it was left.
  abbrev raise_rank : List String → (String → ℕ) → String → ℕ
  raise_rank left rank k = if contains k left then suc (rank k) else 0

  raise_rank-IsRanked :
      (remaining : List String) (rank : String → ℕ)
      → IsRanked (left_of remaining) rank
      → IsRanked remaining (raise_rank (left_of remaining) rank)
  raise_rank-IsRanked remaining rank h = record {
    falls = λ k d e.
        let stays : contains k (left_of remaining) ≡ true =
          rw (contains-left k remaining, e.from_there, ready_has_none remaining k d e) refl in
        elim (Bool-cases (contains d (left_of remaining))) [
          | inl both ↦
              rw (stays, both)
                (omega (
                  arith,
                  h.falls k d (record { from_there = stays; depends = e.depends; to_there = both }),
                ))
          | inr gone ↦ rw (stays, gone) (omega arith)
        ];
  }

  peel-IsRanked :
      (fuel : ℕ) (remaining : List String)
      → peel fuel ds remaining ≡ ok tt
      → (rank : String → ℕ) × IsRanked remaining rank
  unfolding peel
  peel-IsRanked fuel [] h = (λ k. 0, record { falls = λ k d e. cc (e.from_there) })
  peel-IsRanked zero (x ∷ xs) h = absurd (cc)
  peel-IsRanked (suc fuel) (x ∷ xs) h = elim (Bool-cases (is_empty (ready_of (x ∷ xs)))) [
    | inl stuck ↦ absurd (ground arith)
    | inr peeled ↦
        let (rank, r) = peel-IsRanked fuel (left_of (x ∷ xs)) (ground arith) in
        (raise_rank (left_of (x ∷ xs)) rank, raise_rank-IsRanked (x ∷ xs) rank r)
  ]

  not_in_empty :
      (remaining : List String) (k : String)
      → contains k remaining ≡ true
      → is_empty (ready_of remaining) ≡ true
      → is_ready ds remaining k ≡ false
  not_in_empty remaining k h e = ground (
    arith,
    contains-filter k (is_ready ds remaining) remaining,
    contains-empty k (ready_of remaining),
  )

  -- Down the numbers there is always one that waits for nothing.
  no_descent :
      (remaining : List String) (rank : String → ℕ)
      → IsRanked remaining rank
      → is_empty (ready_of remaining) ≡ true
      → (bound : ℕ) (k : String) → contains k remaining ≡ true
      → rank k < bound
      → ⊥
  no_descent remaining rank r none_ready zero k h b = absurd (omega arith)
  no_descent remaining rank r none_ready (suc bound) k h b =
      let waits : is_ready ds remaining k ≡ false = not_in_empty remaining k h none_ready in
      let (d, e) = Edge-of_waiting remaining k h waits in
      no_descent remaining rank r none_ready bound d e.to_there (omega (arith, r.falls k d e))

  peel-total :
      (fuel : ℕ) (remaining : List String)
      → length remaining ≤ fuel
      → (rank : String → ℕ) → IsRanked remaining rank
      → peel fuel ds remaining ≡ ok tt
  unfolding peel
  peel-total fuel [] b rank r = refl
  peel-total zero (x ∷ xs) b rank r = absurd (omega arith)
  peel-total (suc fuel) (x ∷ xs) b rank r = elim (Bool-cases (is_empty (ready_of (x ∷ xs)))) [
    | inl stuck ↦
        absurd (no_descent (x ∷ xs) rank r stuck (suc (rank x)) x (rw eq_refl) (omega arith))
    | inr peeled ↦ rw peeled (
        peel-total fuel (left_of (x ∷ xs)) (omega (arith, length-left (x ∷ xs) peeled)) rank
          (record { falls = λ k d e. r.falls k d (Edge-left (x ∷ xs) k d e) }))
  ]

  peel-ne-no_fuel :
      (fuel : ℕ) (remaining : List String)
      → length remaining ≤ fuel
      → peel fuel ds remaining ≢ err no_fuel
  unfolding peel
  peel-ne-no_fuel fuel [] b = λ e. cc
  peel-ne-no_fuel zero (x ∷ xs) b = absurd (omega arith)
  peel-ne-no_fuel (suc fuel) (x ∷ xs) b =
      ground (arith, length-left (x ∷ xs), peel-ne-no_fuel fuel (left_of (x ∷ xs)))

length-node_ids : (nodes : List GraphNode) → length (node_ids nodes) ≡ length nodes
length-node_ids [] = refl
length-node_ids (n ∷ ns) = ap suc (length-node_ids ns)

-- The check accepts the nodes exactly when each can be given a number above the numbers of the
-- nodes that it depends on.
pub require_acyclic-iff-IsRanked :
    (nodes : List GraphNode)
    → (require_acyclic nodes ≡ ok tt)
      ↔ ((rank : String → ℕ) × IsRanked (dependencies nodes) (node_ids nodes) rank)
unfolding require_acyclic
require_acyclic-iff-IsRanked nodes = (
  peel-IsRanked (dependencies nodes) (length nodes) (node_ids nodes),
  λ (rank, r).
      peel-total (dependencies nodes) (length nodes) (node_ids nodes)
        (omega (arith, length-node_ids nodes)) rank r,
)

peel-answers :
    (fuel : ℕ) (ds : Dict (List String)) (remaining : List String)
    → (peel fuel ds remaining ≡ ok tt)
      ⊎ (peel fuel ds remaining ≡ err value_error)
      ⊎ (peel fuel ds remaining ≡ err no_fuel)
unfolding peel
peel-answers fuel ds [] = inl refl
peel-answers zero ds (x ∷ xs) = inr (inr refl)
peel-answers (suc fuel) ds (x ∷ xs) = ground (arith, peel-answers fuel ds (left_of ds (x ∷ xs)))

-- The loop ends in as many rounds as there are nodes: the check accepts, or raises the ValueError.
pub require_acyclic-ends :
    (nodes : List GraphNode)
    → (require_acyclic nodes ≡ ok tt) ⊎ (require_acyclic nodes ≡ err value_error)
unfolding require_acyclic
require_acyclic-ends nodes = ground (
  arith,
  peel-answers (length nodes) (dependencies nodes) (node_ids nodes),
  peel-ne-no_fuel (dependencies nodes) (length nodes) (node_ids nodes)
      (omega (arith, length-node_ids nodes)),
)

-- A way along dependencies between nodes of the graph.
pub data Chain (nodes : List GraphNode) (k : String) : String → Type 0 where
  one : {d : String} → Edge (dependencies nodes) (node_ids nodes) k d → Chain nodes k d
  more :
      {d e : String}
      → Chain nodes k d
      → Edge (dependencies nodes) (node_ids nodes) d e
      → Chain nodes k e

Chain-falls :
    (nodes : List GraphNode) (rank : String → ℕ)
    → IsRanked (dependencies nodes) (node_ids nodes) rank
    → {k d : String} → Chain nodes k d
    → rank d < rank k
Chain-falls nodes rank r {k} (one {d = d} e) = r.falls k d e
Chain-falls nodes rank r {k} (more {d = d} {e = e} c f) =
    omega (arith, Chain-falls nodes rank r c, r.falls d e f)

-- In nodes that the check accepts no dependencies lead from a node back to itself.
pub no_cycle :
    (nodes : List GraphNode) (k : String) → require_acyclic nodes ≡ ok tt → ¬ (Chain nodes k k)
no_cycle nodes k h c =
    let (rank, r) = (require_acyclic-iff-IsRanked nodes).0 h in
    absurd (omega (arith, Chain-falls nodes rank r c))
