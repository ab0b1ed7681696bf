-- ===== src/Control/Admission/Usage.antt =====
-- The quotas of backend/control/admission.py bound the usage that is kept.
use ryuk.Prelude.{
  ℕ, ◌-◌, ◌≤◌, String, ◌≡◌, refl, sym, ◌∙◌, false, inl, inr, Option, none, some, List, [], ◌∷◌, ltb,
  arith, eq_iff, text-cases, Option-cases, Bool-cases, some_inj,
}
use mathlib.Core.Path.{subst}
use ryuk.Prelude.Int.{ℤ, pos, negsuc}
use ryuk.Prelude.Dict.{Dict, lookup, lookup-insert}
use ryuk.Control.Admission.{
  QuotaPolicy, TenantUsage, AdmissionController, start, fresh_usage, roll_window, over_quota,
  count_request, put_usage, current_usage, admit_with, admit_policy, admit, release_usage, release,
}

-- A usage record stays inside its tenant's quota.
pub record Within (p : QuotaPolicy) (u : TenantUsage) : Type 0 where
  pub requests : u.requests ≤ p.requests_per_minute
  pub tokens : u.tokens ≤ p.tokens_per_minute
  pub concurrent : u.concurrent ≤ p.concurrent_requests

pub record IsBounded (c : AdmissionController) : Type 0 where
  pub at_tenant :
      (t : String) (p : QuotaPolicy) (u : TenantUsage)
      → lookup t c.policies ≡ some p
      → lookup t c.usage ≡ some u
      → Within p u

roll_window-Within :
    (p : QuotaPolicy) (u : TenantUsage) (now : ℕ) → Within p u → Within p (roll_window u now)
unfolding roll_window
roll_window-Within p u now h = ground arith

fresh_usage-Within : (p : QuotaPolicy) (now : ℕ) → Within p (fresh_usage now)
fresh_usage-Within p now = ground arith

current_usage-Within :
    (c : AdmissionController) (t : String) (p : QuotaPolicy) (now : ℕ)
    → IsBounded c
    → lookup t c.policies ≡ some p
    → Within p (current_usage c t now)
current_usage-Within c t p now h e = elim (Option-cases (lookup t c.usage)) [
  | inl new ↦ rw new (roll_window-Within p (fresh_usage now) now (fresh_usage-Within p now))
  | inr (u, old) ↦ rw old (roll_window-Within p u now (h.at_tenant t p u e old))
]

count_request-Within :
    (p : QuotaPolicy) (u : TenantUsage) (estimated : ℕ)
    → over_quota p u estimated ≡ false
    → Within p u
    → Within p (count_request u estimated)
unfolding over_quota
count_request-Within p u estimated e h = ground arith

written :
    (t j : String) (u v : TenantUsage) (c : AdmissionController)
    → t ≡ j
    → lookup j (put_usage c t u).usage ≡ some v
    → u ≡ v
written t j u v c same f = ground (arith, eq_iff t j, lookup-insert t j u c.usage)

-- Only the tenant's own usage has to be looked at.
put_usage-IsBounded :
    (c : AdmissionController) (t : String) (u : TenantUsage)
    → IsBounded c
    → ((p : QuotaPolicy) → lookup t c.policies ≡ some p → Within p u)
    → IsBounded (put_usage c t u)
put_usage-IsBounded c t u h w = record {
  at_tenant = λ j p v e f. elim (text-cases t j) [
    | inl same ↦ subst (Within p) (written t j u v c same f) (w p (cc))
    | inr other ↦ h.at_tenant j p v e (rw (lookup-insert, other) at f)
  ];
}

module _ (c : AdmissionController) (t : String) (now : ℕ) (h : IsBounded c) where
  admit_policy-IsBounded :
      (estimated : ℤ) (o : Option QuotaPolicy)
      → lookup t c.policies ≡ o
      → IsBounded (admit_policy c t o estimated now).1
  unfolding admit_policy admit_with
  admit_policy-IsBounded n none e = h
  admit_policy-IsBounded (negsuc n) (some p) e = h
  admit_policy-IsBounded (pos n) (some p) e =
      elim (Bool-cases (over_quota p (current_usage c t now) n)) [
        | inl over ↦
            rw over (put_usage-IsBounded c t _ h (same_policy (current_usage c t now) within))
        | inr fits ↦ rw fits (
            put_usage-IsBounded c t _ h (
              same_policy (count_request (current_usage c t now) n)
                (count_request-Within p (current_usage c t now) n fits within)))
      ]
    where
      within : Within p (current_usage c t now)
      within = current_usage-Within c t p now h e

      same_policy :
          (u : TenantUsage)
          → Within p u
          → (q : QuotaPolicy) → lookup t c.policies ≡ some q
          → Within q u
      same_policy u w q f = subst (λ x. Within x u) (some_inj (sym e ∙ f)) w

  admit-IsBounded : (estimated : ℤ) → IsBounded (admit c t estimated now).1
  unfolding admit
  admit-IsBounded estimated = admit_policy-IsBounded estimated (lookup t c.policies) refl

release_usage-IsBounded :
    (c : AdmissionController) (t : String) (o : Option TenantUsage)
    → lookup t c.usage ≡ o
    → IsBounded c
    → IsBounded (release_usage c t o)
unfolding release_usage
release_usage-IsBounded c t none e h = h
release_usage-IsBounded c t (some u) e h = elim (Bool-cases (ltb 0 u.concurrent)) [
  | inl busy ↦ rw busy (put_usage-IsBounded c t _ h (λ p f. one_less p (h.at_tenant t p u f e)))
  | inr idle ↦ rw idle h
]
  where
    one_less :
        (p : QuotaPolicy) → Within p u → Within p (record u { concurrent = u.concurrent - 1 })
    one_less p w = ground arith

-- What happens to a controller.
pub data Call : Type 0 where
  admit_call : String → ℤ → ℕ → Call
  release_call : String → Call

unfoldable pub run : AdmissionController → List Call → AdmissionController
run c [] = c
run c (admit_call t n now ∷ calls) = run (admit c t n now).1 calls
run c (release_call t ∷ calls) = run (release c t) calls

pub run-IsBounded :
    (c : AdmissionController) (calls : List Call) → IsBounded c → IsBounded (run c calls)
unfolding run release
run-IsBounded c [] h = h
run-IsBounded c (admit_call t n now ∷ calls) h =
    run-IsBounded (admit c t n now).1 calls (admit-IsBounded c t now h n)
run-IsBounded c (release_call t ∷ calls) h =
    run-IsBounded (release c t) calls (release_usage-IsBounded c t (lookup t c.usage) refl h)

pub start-IsBounded : (policies : Dict QuotaPolicy) → IsBounded (start policies)
unfolding start lookup
start-IsBounded policies = record { at_tenant = λ t p u e f. ground arith }
