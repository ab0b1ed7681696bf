-- ===== src/Inference/Router/Loop/Invariant.antt =====
-- What holds of the attempts and the budget in every pass of the loop of backend/inference/router.py.
use ryuk.Prelude.{
  ℕ, suc, ◌+◌, ◌<◌, ◌≤◌, max, Bool, true, false, Option, none, some, List, [], ◌∷◌, ◌++◌, ◌≡◌, refl,
  ◌∙◌, ap, ◌⊎◌, inl, inr, length, length-append, contains, arith, All, Has,
}
use mathlib.Core.Path.{subst}
use ryuk.Prelude.Int.{ℤ, pos, negsuc}
use ryuk.Prelude.Result.{ok, bind-ok, ok_inj}
use ryuk.Inference.Contracts.{ExecutionAttempt, is_failed}
use ryuk.Inference.Registry.{RegisteredDeployment}
use ryuk.Inference.Router.Pass.{LoopState, TaskCall, add_attempt, reserve_in, record_tokens_in}
use ryuk.Workflows.Budget.{WorkflowBudget, reserve_attempt, record_output_tokens}

-- The attempt was made on a deployment of the order whose circuit is not open.
abbrev pub IsMade : TaskCall → List RegisteredDeployment → ExecutionAttempt → Type 0
IsMade call order a =
    (d : RegisteredDeployment) × Has order d
    × (contains d.ref.deployment_id call.circuit_open_deployment_ids ≡ false)
    × (a.deployment_id ≡ d.ref.deployment_id)
    × (a.configured_deployment ≡ some d.ref)

-- The sequence numbers count up from this one.
abbrev pub IsNumbered : ℕ → List ExecutionAttempt → Type 0
IsNumbered n [] = Unit
IsNumbered n (a ∷ xs) = (a.sequence ≡ pos n) × IsNumbered (suc n) xs

-- The second budget is the first one after this many reservations.
abbrev pub IsCharged : Option WorkflowBudget → Option WorkflowBudget → ℕ → Type 0
IsCharged none none n = Unit
IsCharged none (some c) n = ⊥
IsCharged (some b) none n = ⊥
IsCharged (some b) (some c) n =
    (c.attempts ≡ b.attempts + n)
    × (c.max_attempts ≡ b.max_attempts)
    × (c.attempts ≤ max b.attempts b.max_attempts)

-- The loop before a pass, in a call with this order and this budget.
pub record IsSound (call : TaskCall) (order : List RegisteredDeployment)
    (first : Option WorkflowBudget) (s : LoopState) : Type 0 where
  pub bounded : length s.attempts ≤ call.policy.max_attempts
  pub numbered : IsNumbered 1 s.attempts
  pub made : All (IsMade call order) s.attempts
  pub all_failed : All (λ (a : ExecutionAttempt). is_failed a.outcome ≡ true) s.attempts
  pub ordered : (d : RegisteredDeployment) → Has s.queue d → Has order d
  pub charged : IsCharged first s.budget (length s.attempts)

-- Attempts of which at most the last succeeded.
abbrev pub IsLastSuccess : List ExecutionAttempt → Type 0
IsLastSuccess attempts =
    (earlier : List ExecutionAttempt) × (a : ExecutionAttempt) × (attempts ≡ earlier ++ (a ∷ []))
    × All (λ (e : ExecutionAttempt). is_failed e.outcome ≡ true) earlier
    × (is_failed a.outcome ≡ false)

-- The loop after its last pass, however it ended.
pub record IsClosed (call : TaskCall) (order : List RegisteredDeployment)
    (first : Option WorkflowBudget) (s : LoopState) : Type 0 where
  pub bounded : length s.attempts ≤ call.policy.max_attempts
  pub numbered : IsNumbered 1 s.attempts
  pub made : All (IsMade call order) s.attempts
  pub successes :
      All (λ (a : ExecutionAttempt). is_failed a.outcome ≡ true) s.attempts
      ⊎ IsLastSuccess s.attempts
  pub reserved : ℕ
  pub recorded : length s.attempts ≤ reserved
  pub charged : IsCharged first s.budget reserved

IsNumbered-append :
    (n : ℕ) (xs : List ExecutionAttempt) (a : ExecutionAttempt)
    → IsNumbered n xs
    → a.sequence ≡ pos (length xs + n)
    → IsNumbered n (xs ++ (a ∷ []))
IsNumbered-append n [] a h e = (rw e (ap pos (omega arith)), tt)
IsNumbered-append n (b ∷ bs) a h e =
    (h.0, IsNumbered-append (suc n) bs a h.1 (rw e (ap pos (omega arith))))

All-append :
    (P : ExecutionAttempt → Type 0) (xs : List ExecutionAttempt) (a : ExecutionAttempt)
    → All P xs
    → P a
    → All P (xs ++ (a ∷ []))
All-append P [] a h here = (here, tt)
All-append P (b ∷ bs) a h here = (h.0, All-append P bs a h.1 here)

-- A budget that grants an attempt had one left, and counts it.
reserve_attempt-counts :
    (b : WorkflowBudget) (time : ℕ)
    → (reserve_attempt b time).0 ≡ true
    → let after = (reserve_attempt b time).1 in
      (after.attempts ≡ suc b.attempts)
      × (after.max_attempts ≡ b.max_attempts)
      × (b.attempts < b.max_attempts)
unfolding reserve_attempt
reserve_attempt-counts b time h = ground arith

pub reserve_in-IsCharged :
    (first now : Option WorkflowBudget) (n time : ℕ)
    → (reserve_in time now).0 ≡ true
    → IsCharged first now n
    → IsCharged first (reserve_in time now).1 (suc n)
unfolding reserve_in
reserve_in-IsCharged none none n time h charged = tt
reserve_in-IsCharged (some b) none n time h charged = absurd charged
reserve_in-IsCharged none (some c) n time h charged = absurd charged
reserve_in-IsCharged (some b) (some c) n time h charged =
    let counts = reserve_attempt-counts c time h in
    (
      omega (arith, counts.0, charged.0),
      counts.1 ∙ charged.1,
      omega (arith, counts.0, counts.2, charged.0, charged.1, charged.2),
    )

record_output_tokens-keeps :
    (b c : WorkflowBudget) (tokens : Option ℤ) (within : Bool)
    → record_output_tokens b tokens ≡ ok (within, c)
    → (c.attempts ≡ b.attempts) × (c.max_attempts ≡ b.max_attempts)
unfolding record_output_tokens
record_output_tokens-keeps b c none within h = ground arith
record_output_tokens-keeps b c (some (negsuc n)) within h = absurd cc
record_output_tokens-keeps b c (some (pos n)) within h = ground arith

kept-IsCharged :
    (first : Option WorkflowBudget) (b c : WorkflowBudget) (n : ℕ)
    → c.attempts ≡ b.attempts
    → c.max_attempts ≡ b.max_attempts
    → IsCharged first (some b) n
    → IsCharged first (some c) n
kept-IsCharged none b c n same limit charged = absurd charged
kept-IsCharged (some a) b c n same limit charged =
    (same ∙ charged.0, limit ∙ charged.1, rw same charged.2)

pub record_tokens_in-IsCharged :
    (first now after : Option WorkflowBudget) (n : ℕ) (tokens : Option ℤ) (within : Bool)
    → record_tokens_in tokens now ≡ ok (within, after)
    → IsCharged first now n
    → IsCharged first after n
unfolding record_tokens_in
record_tokens_in-IsCharged first none after n tokens within h charged =
    let same : none ≡ after = ground arith in
    subst (λ (b : Option WorkflowBudget). IsCharged first b n) same charged
record_tokens_in-IsCharged first (some c) after n tokens within h charged =
    let (told, reported, ended) = bind-ok (record_output_tokens c tokens) _ h in
    let same : some told.1 ≡ after = ap (λ r. r.1) (ok_inj ended) in
    let keeps = record_output_tokens-keeps c told.1 tokens told.0 reported in
    subst (λ (b : Option WorkflowBudget). IsCharged first b n) same
      (kept-IsCharged first c told.1 n keeps.0 keeps.1 charged)

-- What an attempt has to be for the loop to record it.
pub record IsNext (call : TaskCall) (order : List RegisteredDeployment) (s : LoopState)
    (a : ExecutionAttempt) : Type 0 where
  pub below : length s.attempts < call.policy.max_attempts
  pub sequence : a.sequence ≡ pos (length s.attempts + 1)
  pub made : IsMade call order a

-- The loop after an attempt that failed, with any queue that is part of this one's.
pub add_attempt-IsSound :
    (call : TaskCall) (order : List RegisteredDeployment) (first now : Option WorkflowBudget)
    (s : LoopState) (a : ExecutionAttempt)
    → IsSound call order first s
    → IsNext call order s a
    → is_failed a.outcome ≡ true
    → IsCharged first now (suc (length s.attempts))
    → IsSound call order first (add_attempt a (record s { budget = now }))
unfolding add_attempt
add_attempt-IsSound call order first now s a sound next fails charged = record {
  bounded = omega (arith, next.below, length-append s.attempts (a ∷ []));
  numbered = IsNumbered-append 1 s.attempts a sound.numbered next.sequence;
  made = All-append _ s.attempts a sound.made next.made;
  all_failed = All-append _ s.attempts a sound.all_failed fails;
  ordered = sound.ordered;
  charged =
      subst (λ (n : ℕ). IsCharged first now n) (omega (arith, length-append s.attempts (a ∷ [])))
        charged;
}

-- The loop after an attempt that succeeded.
pub add_attempt-IsClosed :
    (call : TaskCall) (order : List RegisteredDeployment) (first now : Option WorkflowBudget)
    (s : LoopState) (a : ExecutionAttempt)
    → IsSound call order first s
    → IsNext call order s a
    → is_failed a.outcome ≡ false
    → IsCharged first now (suc (length s.attempts))
    → IsClosed call order first (add_attempt a (record s { budget = now }))
unfolding add_attempt
add_attempt-IsClosed call order first now s a sound next serves charged = record {
  bounded = omega (arith, next.below, length-append s.attempts (a ∷ []));
  numbered = IsNumbered-append 1 s.attempts a sound.numbered next.sequence;
  made = All-append _ s.attempts a sound.made next.made;
  successes = inr (s.attempts, a, refl, sound.all_failed, serves);
  reserved = suc (length s.attempts);
  recorded = omega (arith, length-append s.attempts (a ∷ []));
  charged = charged;
}

pub IsSound-IsClosed :
    (call : TaskCall) (order : List RegisteredDeployment) (first : Option WorkflowBudget)
    (s : LoopState)
    → IsSound call order first s
    → IsClosed call order first s
IsSound-IsClosed call order first s sound = record {
  bounded = sound.bounded;
  numbered = sound.numbered;
  made = sound.made;
  successes = inl sound.all_failed;
  reserved = length s.attempts;
  recorded = omega arith;
  charged = sound.charged;
}
