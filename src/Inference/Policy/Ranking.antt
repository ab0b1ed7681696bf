-- ===== src/Inference/Policy/Ranking.antt =====
-- The order in which backend/inference/policy.py ranks its candidates.
use ryuk.Prelude.{
  ◌≤◌, ◌⊎◌, String, true, false, Option, some, List, [], ◌∷◌, map, All, ◌≡◌, refl, sym, ap, ◌==◌,
  arith, eq_refl, Bool-cases, inl, inr,
}
use mathlib.Core.Path.{subst}
use mathlib.Core.List.{Perm}
use mathlib.Core.List.Perm
use ryuk.Prelude.Int.{ltb_ℤ}
use ryuk.Prelude.Dict.{Dict, lookup, insert, lookup-insert}
use ryuk.Prelude.Result.{ok}
use ryuk.Prelude.Sorting.{sort_by, IsOrdered, sort_by-perm, sort_by-IsOrdered, sort_by-All}
use ryuk.Inference.Contracts.{InferenceTask, RoutingScore, RoutingDecision}
use ryuk.Inference.Policy.{
  PolicyCandidate, score, candidates_by_id, Keyed, key_scores, key_le, decision_of, rank_candidates,
}

-- The candidate of this name, or the last of them, was registered at this index.
abbrev pub IsRegistered : Dict PolicyCandidate → Keyed → Type 0
IsRegistered by_id k =
    (c : PolicyCandidate) × (lookup k.0.deployment_id by_id ≡ some c) × (c.registration_index ≡ k.1)

-- The first of two keys has the higher total, or the same total and no later registration.
abbrev pub Precedes : Keyed → Keyed → Type 0
Precedes (s, i) (t, j) =
    (ltb_ℤ t.total s.total ≡ true)
    ⊎ ((ltb_ℤ s.total t.total ≡ false) × (ltb_ℤ t.total s.total ≡ false) × (i ≤ j))

-- Each key precedes the next.
abbrev pub IsDescending : List Keyed → Type 0
IsDescending [] = Unit
IsDescending (k ∷ []) = Unit
IsDescending (k ∷ l ∷ ls) = Precedes k l × IsDescending (l ∷ ls)

pub record IsRanking (task : InferenceTask) (preferred : Option String)
    (candidates : List PolicyCandidate) (d : RoutingDecision) : Type 0 where
  pub scores : Perm d.candidates (map (score task preferred) candidates)
  pub names : d.ordered_deployment_ids ≡ map (λ s. s.deployment_id) d.candidates
  pub keys : List Keyed
  pub keyed : map (λ k. k.0) keys ≡ d.candidates
  pub ordered : IsDescending keys
  pub registered : All (IsRegistered (candidates_by_id candidates [])) keys

key_le-total : (a b : Keyed) → key_le a b ≡ false → key_le b a ≡ true
unfolding key_le
key_le-total (s, i) (t, j) h = ground arith

key_le-Precedes : (a b : Keyed) → key_le a b ≡ true → Precedes a b
unfolding key_le
key_le-Precedes (s, i) (t, j) h = elim (Bool-cases (ltb_ℤ t.total s.total)) [
  | inl higher ↦ inl higher
  | inr lower ↦ inr (ground arith, lower, ground arith)
]

IsOrdered-IsDescending : (keys : List Keyed) → IsOrdered key_le keys → IsDescending keys
IsOrdered-IsDescending [] h = tt
IsOrdered-IsDescending (k ∷ []) h = tt
IsOrdered-IsDescending (k ∷ l ∷ ls) h =
    (key_le-Precedes k l h.0, IsOrdered-IsDescending (l ∷ ls) h.1)

candidates_by_id-keeps :
    (cs : List PolicyCandidate) (d : Dict PolicyCandidate) (i : String) (c : PolicyCandidate)
    → lookup i d ≡ some c
    → (c' : PolicyCandidate) × (lookup i (candidates_by_id cs d) ≡ some c')
unfolding candidates_by_id
candidates_by_id-keeps [] d i c h = (c, h)
candidates_by_id-keeps (b ∷ cs) d i c h = elim (Bool-cases (b.deployment_id == i)) [
  | inl same ↦
      candidates_by_id-keeps cs (insert b.deployment_id b d) i b
        (rw (lookup-insert b.deployment_id i b d, same) refl)
  | inr differ ↦
      candidates_by_id-keeps cs (insert b.deployment_id b d) i c
        (rw (lookup-insert b.deployment_id i b d, differ) h)
]

-- Every candidate's name is a key.
candidates_by_id-All :
    (cs : List PolicyCandidate) (d : Dict PolicyCandidate)
    → All
        (λ (b : PolicyCandidate).
          (c : PolicyCandidate) × (lookup b.deployment_id (candidates_by_id cs d) ≡ some c))
        cs
unfolding candidates_by_id
candidates_by_id-All [] d = tt
candidates_by_id-All (b ∷ cs) d = (
  candidates_by_id-keeps cs (insert b.deployment_id b d) b.deployment_id b
      (rw (lookup-insert b.deployment_id b.deployment_id b d, eq_refl) refl),
  candidates_by_id-All cs (insert b.deployment_id b d),
)

key_scores-ends :
    (task : InferenceTask) (preferred : Option String) (by_id : Dict PolicyCandidate)
    (cs : List PolicyCandidate)
    → All
        (λ (b : PolicyCandidate). (c : PolicyCandidate) × (lookup b.deployment_id by_id ≡ some c))
        cs
    → (keyed : List Keyed) × (key_scores by_id (map (score task preferred) cs) ≡ ok keyed)
      × (map (λ k. k.0) keyed ≡ map (score task preferred) cs)
      × All (IsRegistered by_id) keyed
unfolding key_scores score
key_scores-ends task preferred by_id [] h = ([], refl, refl, tt)
key_scores-ends task preferred by_id (b ∷ cs) ((c, found), h) =
    let (keyed, ends, scores, registered) = key_scores-ends task preferred by_id cs h in
    (
      (score task preferred b, c.registration_index) ∷ keyed,
      rw (found, ends) refl,
      ap (◌∷◌ (score task preferred b)) scores,
      ((c, found, refl), registered),
    )

ids_of_scores :
    (keyed : List Keyed)
    → map (λ k. k.0.deployment_id) keyed
      ≡ map (λ (s : RoutingScore). s.deployment_id) (map (λ k. k.0) keyed)
ids_of_scores [] = refl
ids_of_scores (k ∷ ks) = ap (◌∷◌ k.0.deployment_id) (ids_of_scores ks)

-- The ranking never raises. It ranks the scores of all its candidates, each once, in the order of the
-- totals from the highest down, and of the registration where totals are equal.
pub ranking :
    (task : InferenceTask) (preferred : Option String) (candidates : List PolicyCandidate)
    → (d : RoutingDecision) × (rank_candidates task candidates preferred ≡ ok d)
      × IsRanking task preferred candidates d
unfolding rank_candidates decision_of
ranking task preferred candidates =
    let by_id = candidates_by_id candidates [] in
    let (keyed, ends, scores, registered) =
      key_scores-ends task preferred by_id candidates (candidates_by_id-All candidates []) in
    (
      decision_of (sort_by key_le keyed),
      rw ends refl,
      record {
        scores = rw (sym scores) (Perm.map (λ k. k.0) (sort_by-perm key_le keyed));
        names = ids_of_scores (sort_by key_le keyed);
        keys = sort_by key_le keyed;
        keyed = refl;
        ordered =
            IsOrdered-IsDescending (sort_by key_le keyed)
              (sort_by-IsOrdered key_le key_le-total keyed);
        registered = sort_by-All key_le (IsRegistered by_id) keyed registered;
      },
    )

All-of_map :
    (P : RoutingScore → Type 0) (keyed : List Keyed)
    → All P (map (λ k. k.0) keyed)
    → All (λ (k : Keyed). P k.0) keyed
All-of_map P [] h = tt
All-of_map P (k ∷ ks) h = (h.0, All-of_map P ks h.1)

All-to_ids :
    (P : String → Type 0) (keyed : List Keyed)
    → All (λ (k : Keyed). P k.0.deployment_id) keyed
    → All P (map (λ k. k.0.deployment_id) keyed)
All-to_ids P [] h = tt
All-to_ids P (k ∷ ks) h = (h.0, All-to_ids P ks h.1)

-- What holds of the name of every candidate holds of every name in the order.
pub rank_candidates-All :
    (P : String → Type 0) (task : InferenceTask) (preferred : Option String)
    (candidates : List PolicyCandidate)
    → All (λ (s : RoutingScore). P s.deployment_id) (map (score task preferred) candidates)
    → (d : RoutingDecision) × (rank_candidates task candidates preferred ≡ ok d)
      × All P d.ordered_deployment_ids
      × (map (λ (s : RoutingScore). s.deployment_id) d.candidates ≡ d.ordered_deployment_ids)
      × Perm d.ordered_deployment_ids
          (map (λ (s : RoutingScore). s.deployment_id) (map (score task preferred) candidates))
unfolding rank_candidates decision_of
rank_candidates-All P task preferred candidates h =
    let by_id = candidates_by_id candidates [] in
    let (keyed, ends, scores, registered) =
      key_scores-ends task preferred by_id candidates (candidates_by_id-All candidates []) in
    let ranked = sort_by key_le keyed in
    let all_keyed : All (λ (k : Keyed). P k.0.deployment_id) keyed =
      All-of_map (λ (s : RoutingScore). P s.deployment_id) keyed
        (subst (All (λ (s : RoutingScore). P s.deployment_id)) (sym scores) h) in
    (
      decision_of ranked,
      rw ends refl,
      All-to_ids P ranked (sort_by-All key_le (λ (k : Keyed). P k.0.deployment_id) keyed all_keyed),
      sym (ids_of_scores ranked),
      rw (ids_of_scores ranked, sym scores)
          (Perm.map (λ (s : RoutingScore). s.deployment_id)
            (Perm.map (λ k. k.0) (sort_by-perm key_le keyed))),
    )
