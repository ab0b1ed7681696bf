-- ===== src/Workflows/Store/Graphs/Limits.antt =====
-- The durable budgets of backend/workflows/store.py under calls of any number of executions.
use ryuk.Prelude.{
  ℕ, ◌+◌, ◌≤◌, String, ◌≡◌, refl, sym, ◌∙◌, Bool, true, ◌&&◌, Option, none, some, List, [], ◌∷◌,
  ◌++◌, inl, inr, if◌then◌else◌, ◌==◌, arith, eq_iff, Bool-cases, Option-cases,
}
use mathlib.Core.Path.{subst}
use ryuk.Prelude.Int.{pos, negsuc}
use ryuk.Prelude.Result.{Result-cases, ok}
use ryuk.Workflows.Store.Tables.{find, update_where}
use ryuk.Workflows.Store.Graphs.{GraphBudget, GraphStore, get_graph_budget, is_budget}
use ryuk.Workflows.Store.Graphs.Budgets.{
  bind_row, bind_graph_budget, one_attempt, more_tokens, update_budget, reserve_graph_attempt,
  record_tokens, record_graph_output_tokens,
}
use ryuk.Workflows.Store.Graphs.Calls.{
  BudgetCall, bind_at, reserve_at, record_at, store_after, is_granted, budget_step, budget_run,
  attempts_of, tokens_of, all_attempts, all_tokens, bind-row, reserve-cases, record-cases,
  tokens_within,
}

-- What the table says of the graph after `n` granted attempts and `m` recorded tokens.
pub record Spent (b : GraphBudget) (n m : ℕ) : Type 0 where
  pub attempts : b.attempts ≡ n
  pub attempts_fit : n ≤ b.max_attempts
  pub tokens : b.output_tokens ≡ m
  pub tokens_fit : (limit : ℕ) → b.max_output_tokens ≡ some limit → m ≤ limit

abbrev Tally : Option GraphBudget → ℕ → ℕ → Type 0
Tally none n m = (n ≡ 0) × (m ≡ 0)
Tally (some b) n m = Spent b n m

find-update_budget :
    (t g u h : String) (f : GraphBudget → GraphBudget) (rows : List GraphBudget)
    → ((b : GraphBudget) → (f b).tenant ≡ b.tenant)
    → ((b : GraphBudget) → (f b).graph_id ≡ b.graph_id)
    → find (is_budget t g) (update_where (is_budget u h) f rows) ≡ (
        if u == t && h == g
        then elim (find (is_budget t g) rows) [ none ↦ none | some b ↦ some (f b) ]
        else find (is_budget t g) rows)
unfolding find update_where
find-update_budget t g u h f [] kt kg = ground arith
find-update_budget t g u h f (b ∷ rows) kt kg = ground (
  arith,
  find-update_budget t g u h f rows kt kg,
  kt b,
  kg b,
  eq_iff b.tenant t,
  eq_iff b.graph_id g,
  eq_iff b.tenant u,
  eq_iff b.graph_id h,
  eq_iff u t,
  eq_iff h g,
)

find-append_one :
    (p : GraphBudget → Bool) (rows : List GraphBudget) (q : GraphBudget)
    → find p (rows ++ q ∷ [])
      ≡ elim (find p rows) [ none ↦ (if p q then some q else none) | some b ↦ some b ]
unfolding find
find-append_one p [] q = refl
find-append_one p (b ∷ rows) q = elim (Bool-cases (p b)) [
  | inl hit ↦ rw hit refl
  | inr miss ↦ rw miss (find-append_one p rows q)
]

module _ (t g : String) where
  -- A new row starts with nothing spent.
  append-Tally :
      (rows : List GraphBudget) (q : GraphBudget) (n m : ℕ)
      → q.attempts ≡ 0
      → q.output_tokens ≡ 0
      → Tally (find (is_budget t g) rows) n m
      → Tally (find (is_budget t g) (rows ++ q ∷ [])) n m
  append-Tally rows q n m na nt h = elim (Option-cases (find (is_budget t g) rows)) [
    | inr (b, e) ↦ rw (find-append_one, e) (rw e at h)
    | inl missing ↦
        let (zn, zm) : (n ≡ 0) × (m ≡ 0) = rw missing at h in
        elim (Bool-cases (is_budget t g q)) [
          | inl hit ↦
              rw (find-append_one, missing, hit)
                (record {
                  attempts = na ∙ sym zn;
                  attempts_fit = omega (arith, zn);
                  tokens = nt ∙ sym zm;
                  tokens_fit = λ limit e. omega (arith, zm);
                })
          | inr miss ↦ rw (find-append_one, missing, miss) (zn, zm)
        ]
  ]

  bind_row-Tally :
      (u h : String) (deadline attempts : ℕ) (tokens : Option ℕ) (o : Option GraphBudget)
      (b : GraphBudget) (s s' : GraphStore) (n m : ℕ)
      → bind_row u h deadline attempts tokens o s ≡ ok (b, s')
      → Tally (get_graph_budget t g s) n m
      → Tally (get_graph_budget t g s') n m
  unfolding bind_row get_graph_budget
  bind_row-Tally u h deadline attempts tokens (some c) b s s' n m e k =
      let same : s ≡ s' = ground arith in
      subst (λ (y : GraphStore). Tally (find (is_budget t g) y.budgets) n m) same k
  bind_row-Tally u h deadline attempts tokens none b s s' n m e k =
      let row : GraphBudget = record {
        graph_id = h;
        tenant = u;
        deadline_at = deadline;
        max_attempts = attempts;
        max_output_tokens = tokens;
        attempts = 0;
        output_tokens = 0;
      } in
      let same : record s { budgets = s.budgets ++ row ∷ [] } ≡ s' = ground arith in
      subst (λ (y : GraphStore). Tally (find (is_budget t g) y.budgets) n m) same
        (append-Tally s.budgets row n m refl refl k)

  bind-Tally :
      (u h : String) (duration attempts : ℕ) (tokens : Option ℕ) (now : ℕ) (s : GraphStore)
      (n m : ℕ)
      → Tally (get_graph_budget t g s) n m
      → Tally
          (get_graph_budget t g
            (store_after (bind_graph_budget u h duration attempts tokens now s) s))
          n
          m
  bind-Tally u h duration attempts tokens now s n m k =
      elim (Result-cases (bind_graph_budget u h duration attempts tokens now s)) [
        | inr (e, raised) ↦ rw raised k
        | inl ((b, s'), returned) ↦ rw returned (
            bind_row-Tally u h (now + duration) attempts tokens (get_graph_budget u h s) b s s' n m
              (bind-row u h duration attempts tokens now s (b, s') returned) k)
      ]

  -- An update of the graph's own row or of another.
  update-Tally :
      (u h : String) (f : GraphBudget → GraphBudget) (b : GraphBudget) (s : GraphStore)
      (n m n' m' : ℕ)
      → ((c : GraphBudget) → (f c).tenant ≡ c.tenant)
      → ((c : GraphBudget) → (f c).graph_id ≡ c.graph_id)
      → get_graph_budget u h s ≡ some b
      → (Spent b n m → Spent (f b) n' m')
      → Tally (get_graph_budget t g s) n m
      → Tally
          (get_graph_budget t g (update_budget u h f s))
          (if u == t && h == g then n' else n)
          (if u == t && h == g then m' else m)
  unfolding get_graph_budget update_budget
  update-Tally u h f b s n m n' m' kt kg e step k = elim (Bool-cases (u == t && h == g)) [
    | inr other ↦ rw (find-update_budget t g u h f s.budgets kt kg, other) k
    | inl same ↦
        let same_tenant : u ≡ t = ground (arith, eq_iff u t) in
        let same_graph : h ≡ g = ground (arith, eq_iff h g) in
        let found : find (is_budget t g) s.budgets ≡ some b = rw (← same_tenant, ← same_graph) e in
        rw (find-update_budget t g u h f s.budgets kt kg, same, found) (step (rw found at k))
  ]

  Tally-cong :
      (o : Option GraphBudget) (n m n' m' : ℕ) → n ≡ n' → m ≡ m' → Tally o n m → Tally o n' m'
  Tally-cong o n m n' m' e f k = subst (λ x. Tally o x m') e (subst (Tally o n) f k)

  reserve-Tally :
      (u h : String) (now : ℕ) (s : GraphStore) (n m : ℕ)
      → Tally (get_graph_budget t g s) n m
      → Tally
          (get_graph_budget t g (store_after (reserve_graph_attempt u h now s) s))
          (n + attempts_of t g s (reserve_at u h now))
          m
  unfolding attempts_of
  reserve-Tally u h now s n m k = elim (reserve-cases u h now s) [
    | inl (refused, same) ↦ rw same (
        Tally-cong (get_graph_budget t g s) n m (n + attempts_of t g s (reserve_at u h now)) m
          (ground (arith, refused)) refl k)
    | inr (b, found, spare, granted) ↦ rw granted (
        Tally-cong (get_graph_budget t g (update_budget u h one_attempt s))
          (if u == t && h == g then n + 1 else n) (if u == t && h == g then m else m)
          (n + (if (u == t && h == g) && true then 1 else 0)) m (ground arith) (ground arith)
          (update-Tally u h one_attempt b s n m (n + 1) m (λ c. refl) (λ c. refl) found
            (λ spent. record {
              attempts = omega (arith, spent.attempts);
              attempts_fit = omega (arith, spent.attempts, spare);
              tokens = spent.tokens;
              tokens_fit = spent.tokens_fit;
            })
            k))
  ]

  record_tokens-Tally :
      (u h : String) (count : ℕ) (s : GraphStore) (n m : ℕ)
      → Tally (get_graph_budget t g s) n m
      → Tally
          (get_graph_budget t g (store_after (record_tokens u h count s) s))
          n
          (m + (if (u == t && h == g) && is_granted (record_tokens u h count s) then count else 0))
  record_tokens-Tally u h count s n m k = elim (record-cases u h count s) [
    | inl (refused, same) ↦ rw same (
        Tally-cong (get_graph_budget t g s) n m n
          (m + (if (u == t && h == g) && is_granted (record_tokens u h count s) then count else 0))
          refl (ground (arith, refused)) k)
    | inr (b, found, spare, granted) ↦ rw granted (
        Tally-cong (get_graph_budget t g (update_budget u h (more_tokens count) s))
          (if u == t && h == g then n else n) (if u == t && h == g then m + count else m) n
          (m + (if (u == t && h == g) && true then count else 0)) (ground arith) (ground arith)
          (update-Tally u h (more_tokens count) b s n m n (m + count) (λ c. refl) (λ c. refl) found
            (λ spent. record {
              attempts = spent.attempts;
              attempts_fit = spent.attempts_fit;
              tokens = omega (arith, spent.tokens);
              tokens_fit = λ limit e. omega (
                arith,
                spent.tokens,
                tokens_within b.max_output_tokens (b.output_tokens + count) spare limit e,
              );
            })
            k))
  ]

  step-Tally :
      (call : BudgetCall) (s : GraphStore) (n m : ℕ)
      → Tally (get_graph_budget t g s) n m
      → Tally
          (get_graph_budget t g (budget_step s call))
          (n + attempts_of t g s call)
          (m + tokens_of t g s call)
  unfolding budget_step attempts_of tokens_of record_graph_output_tokens
  step-Tally (bind_at u h duration attempts tokens now) s n m k =
      Tally-cong _ n m (n + 0) (m + 0) (omega arith) (omega arith)
        (bind-Tally u h duration attempts tokens now s n m k)
  step-Tally (reserve_at u h now) s n m k =
      Tally-cong _ _ m _ (m + 0) refl (omega arith) (reserve-Tally u h now s n m k)
  step-Tally (record_at u h none) s n m k =
      Tally-cong _ n m (n + 0) _ (omega arith) (ground arith) k
  step-Tally (record_at u h (some (negsuc c))) s n m k =
      Tally-cong _ n m (n + 0) _ (omega arith) (ground arith) k
  step-Tally (record_at u h (some (pos count))) s n m k =
      Tally-cong _ n _ (n + 0) _ (omega arith) refl (record_tokens-Tally u h count s n m k)

  run-Tally :
      (calls : List BudgetCall) (s : GraphStore) (n m : ℕ)
      → Tally (get_graph_budget t g s) n m
      → Tally
          (get_graph_budget t g (budget_run s calls))
          (n + all_attempts t g s calls)
          (m + all_tokens t g s calls)
  unfolding budget_run all_attempts all_tokens
  run-Tally [] s n m k = Tally-cong _ n m (n + 0) (m + 0) (omega arith) (omega arith) k
  run-Tally (call ∷ calls) s n m k = Tally-cong _ _ _ _ _ (omega arith) (omega arith) (
      run-Tally calls (budget_step s call) (n + attempts_of t g s call) (m + tokens_of t g s call)
        (step-Tally call s n m k))

-- From a store without a budget for the graph, whatever calls are made by whatever executions, on this graph and
-- on others, in any order and at any times: if the graph then has a budget, its row counts exactly the attempts
-- that were granted and the tokens that were recorded for the graph, and neither is above its limit.
pub graph_budget_limits :
    (t g : String) (s : GraphStore) (calls : List BudgetCall) (b : GraphBudget)
    → get_graph_budget t g s ≡ none
    → get_graph_budget t g (budget_run s calls) ≡ some b
    → Spent b (all_attempts t g s calls) (all_tokens t g s calls)
graph_budget_limits t g s calls b unbound bound =
    Tally-cong t g (some b) (0 + all_attempts t g s calls) (0 + all_tokens t g s calls)
      (all_attempts t g s calls) (all_tokens t g s calls) (omega arith) (omega arith)
      (rw bound at (run-Tally t g calls s 0 0 (rw unbound (refl, refl))))
