-- ===== src/Control/Admission/Bounds.antt =====
-- What backend/control/admission.py lets through, told from its answers alone.
use ryuk.Prelude.{
  ℕ, ◌+◌, ◌-◌, ◌≤◌, String, ◌≡◌, refl, sym, ap, ◌∙◌, Bool, true, false, inl, inr, Option, none,
  some, List, [], ◌∷◌, ltb, leb, arith, eq_refl, text-cases, Option-cases, Bool-cases,
  if◌then◌else◌, ◌==◌,
}
use mathlib.Core.Path.{subst}
use ryuk.Prelude.Int.{ℤ, pos, negsuc}
use ryuk.Prelude.Dict.{Dict, lookup, lookup-insert}
use ryuk.Control.Admission.{
  QuotaPolicy, TenantUsage, AdmissionController, start, roll_window, over_quota, count_request,
  put_usage, current_usage, admit_with, admit_policy, admit, release_usage, release,
}
use ryuk.Control.Admission.Usage.{
  Within, Call, admit_call, release_call, run, run-IsBounded, start-IsBounded,
}

-- The window that a tenant's calls are in: when it was opened, how many requests were admitted in it
-- and with how many tokens; and the admissions of all windows less the releases.
pub record Tally : Type 0 where
  pub opened : ℕ
  pub requests : ℕ
  pub tokens : ℕ
  pub held : ℕ

-- A call a minute after the window was opened, or later, opens a new one, and so does the first call.
unfoldable pub window_at : ℕ → Option Tally → Tally
window_at now none = record { opened = now; requests = 0; tokens = 0; held = 0 }
window_at now (some w) =
    if leb 60_000 (now - w.opened)
    then record { opened = now; requests = 0; tokens = 0; held = w.held }
    else w

abbrev pub counted : Bool → ℕ → Tally → Tally
counted false n w = w
counted true n w = record {
  opened = w.opened;
  requests = w.requests + 1;
  tokens = w.tokens + n;
  held = w.held + 1;
}

-- After a call that was answered; a negative estimate counts for nothing.
abbrev pub answered : Bool → ℤ → ℕ → Option Tally → Option Tally
answered answer (negsuc n) now o = o
answered answer (pos n) now o = some (counted answer n (window_at now o))

-- After a release; one without an admission counts for nothing.
abbrev pub returned : Option Tally → Option Tally
returned none = none
returned (some w) = some (record w { held = w.held - 1 })

-- The tally of a tenant, from the answers of `admit`.
unfoldable pub tally : String → AdmissionController → List Call → Option Tally → Option Tally
tally t c [] o = o
tally t c (admit_call u n now ∷ calls) o =
    tally t (admit c u n now).1 calls (if u == t then answered (admit c u n now).0 n now o else o)
tally t c (release_call u ∷ calls) o =
    tally t (release c u) calls (if u == t then returned o else o)

-- The tally that a usage record keeps.
abbrev kept_tally : TenantUsage → Tally
kept_tally u = record {
  opened = u.window_started;
  requests = u.requests;
  tokens = u.tokens;
  held = u.concurrent;
}

abbrev kept : Option TenantUsage → Option Tally
kept none = none
kept (some u) = some (kept_tally u)

kept-roll_window :
    (u : TenantUsage) (now : ℕ)
    → kept_tally (roll_window u now) ≡ window_at now (some (kept_tally u))
unfolding roll_window window_at
kept-roll_window u now = elim (Bool-cases (leb 60_000 (now - u.window_started))) [
  | inl over ↦ rw over refl
  | inr lasts ↦ rw lasts refl
]

kept-current_usage :
    (c : AdmissionController) (t : String) (now : ℕ)
    → kept_tally (current_usage c t now) ≡ window_at now (kept (lookup t c.usage))
unfolding window_at roll_window
kept-current_usage c t now = elim (Option-cases (lookup t c.usage)) [
  | inl new ↦ (let lasts : leb 60_000 (now - now) ≡ false = ground arith in rw (new, lasts) refl)
  | inr (u, old) ↦ rw old (kept-roll_window u now)
]

kept-put_usage :
    (c : AdmissionController) (t : String) (u : TenantUsage)
    → kept (lookup t (put_usage c t u).usage) ≡ some (kept_tally u)
kept-put_usage c t u = rw (lookup-insert t t u c.usage, eq_refl t) refl

kept-put_other :
    (c : AdmissionController) (t j : String) (u : TenantUsage)
    → (j == t) ≡ false
    → kept (lookup t (put_usage c j u).usage) ≡ kept (lookup t c.usage)
kept-put_other c t j u other = rw (lookup-insert j t u c.usage, other) refl

-- The usage that is kept for a tenant with a quota is its tally.
record IsTallied (t : String) (p : QuotaPolicy) (c : AdmissionController) (o : Option Tally)
    : Type 0 where
  pub policy : lookup t c.policies ≡ some p
  pub usage : kept (lookup t c.usage) ≡ o

module _ (t : String) (p : QuotaPolicy) where
  admit-IsTallied :
      (c : AdmissionController) (n : ℤ) (now : ℕ) (o : Option Tally)
      → IsTallied t p c o
      → IsTallied t p (admit c t n now).1 (answered (admit c t n now).0 n now o)
  unfolding admit admit_policy admit_with
  admit-IsTallied c (negsuc n) now o h = rw h.policy h
  admit-IsTallied c (pos n) now o h =
      let u = current_usage c t now in
      let window : kept_tally u ≡ window_at now o =
        kept-current_usage c t now ∙ ap (window_at now) h.usage in
      elim (Bool-cases (over_quota p u n)) [
        | inl over ↦
            rw (h.policy, over)
              (record { policy = h.policy; usage = kept-put_usage c t u ∙ ap some window })
        | inr fits ↦
            rw (h.policy, fits)
              (record {
                policy = h.policy;
                usage =
                    kept-put_usage c t (count_request u n)
                    ∙ ap (λ (w : Tally). some (counted true n w)) window;
              })
      ]

  admit_other-IsTallied :
      (c : AdmissionController) (j : String) (q : Option QuotaPolicy) (n : ℤ) (now : ℕ)
      (o : Option Tally)
      → (j == t) ≡ false
      → IsTallied t p c o
      → IsTallied t p (admit_policy c j q n now).1 o
  unfolding admit_policy admit_with
  admit_other-IsTallied c j none n now o other h = h
  admit_other-IsTallied c j (some q) (negsuc n) now o other h = h
  admit_other-IsTallied c j (some q) (pos n) now o other h =
      let u = current_usage c j now in
      elim (Bool-cases (over_quota q u n)) [
        | inl over ↦
            rw over (record { policy = h.policy; usage = kept-put_other c t j u other ∙ h.usage })
        | inr fits ↦ rw fits (record {
          policy = h.policy;
          usage = kept-put_other c t j (count_request u n) other ∙ h.usage;
        })
      ]

  release-IsTallied :
      (c : AdmissionController) (u : Option TenantUsage) (o : Option Tally)
      → lookup t c.usage ≡ u
      → IsTallied t p c o
      → IsTallied t p (release_usage c t u) (returned o)
  unfolding release_usage
  release-IsTallied c none o e h =
      subst (λ (w : Option Tally). IsTallied t p c (returned w)) (sym (ap kept e) ∙ h.usage)
        (record { policy = h.policy; usage = ap kept e })
  release-IsTallied c (some u) o e h = elim (Bool-cases (ltb 0 u.concurrent)) [
    | inl busy ↦ rw busy (record {
      policy = h.policy;
      usage =
          kept-put_usage c t (record u { concurrent = u.concurrent - 1 })
          ∙ ap returned (sym (ap kept e) ∙ h.usage);
    })
    | inr idle ↦ rw idle (record {
      policy = h.policy;
      usage =
          ap kept e
          ∙ ap (λ (n : ℕ). some (record (kept_tally u) { held = n }))
              (let same : u.concurrent ≡ u.concurrent - 1 = ground arith in same)
          ∙ ap returned (sym (ap kept e) ∙ h.usage);
    })
  ]

  release_other-IsTallied :
      (c : AdmissionController) (j : String) (u : Option TenantUsage) (o : Option Tally)
      → (j == t) ≡ false
      → IsTallied t p c o
      → IsTallied t p (release_usage c j u) o
  unfolding release_usage
  release_other-IsTallied c j none o other h = h
  release_other-IsTallied c j (some u) o other h = elim (Bool-cases (ltb 0 u.concurrent)) [
    | inl busy ↦ rw busy (record {
      policy = h.policy;
      usage = kept-put_other c t j (record u { concurrent = u.concurrent - 1 }) other ∙ h.usage;
    })
    | inr idle ↦ rw idle h
  ]

  run-IsTallied :
      (c : AdmissionController) (calls : List Call) (o : Option Tally)
      → IsTallied t p c o
      → IsTallied t p (run c calls) (tally t c calls o)
  unfolding run tally admit release
  run-IsTallied c [] o h = h
  run-IsTallied c (admit_call u n now ∷ calls) o h = elim (text-cases u t) [
    | inl same ↦
        rw (same, eq_refl)
          (run-IsTallied (admit c t n now).1 calls (answered (admit c t n now).0 n now o)
            (admit-IsTallied c n now o h))
    | inr other ↦ rw other (
        run-IsTallied (admit c u n now).1 calls o
          (admit_other-IsTallied c u (lookup u c.policies) n now o other h))
  ]
  run-IsTallied c (release_call u ∷ calls) o h = elim (text-cases u t) [
    | inl same ↦
        rw (same, eq_refl)
          (run-IsTallied (release c t) calls (returned o)
            (release-IsTallied c (lookup t c.usage) o refl h))
    | inr other ↦ rw other (
        run-IsTallied (release c u) calls o
          (release_other-IsTallied c u (lookup u c.usage) o other h))
  ]

-- The tally is within the quota.
abbrev pub IsWithin : QuotaPolicy → Option Tally → Type 0
IsWithin p none = Unit
IsWithin p (some w) =
    (w.requests ≤ p.requests_per_minute)
    × (w.tokens ≤ p.tokens_per_minute)
    × (w.held ≤ p.concurrent_requests)

kept-IsWithin :
    (p : QuotaPolicy) (o : Option TenantUsage)
    → ((u : TenantUsage) → o ≡ some u → Within p u)
    → IsWithin p (kept o)
kept-IsWithin p none w = tt
kept-IsWithin p (some u) w = let k = w u refl in (k.requests, k.tokens, k.concurrent)

-- Whatever calls are made, in any order and at any times: the requests of a tenant that were told to go
-- ahead in its current window are no more than its quota of requests, and their tokens no more than its
-- quota of tokens; and all that were told to go ahead, less its releases, are no more than its quota of
-- concurrent requests. A window is opened by the first call a minute or more after the last was opened.
pub run_quota :
    (policies : Dict QuotaPolicy) (calls : List Call) (t : String) (p : QuotaPolicy)
    → lookup t policies ≡ some p
    → IsWithin p (tally t (start policies) calls none)
unfolding start lookup
run_quota policies calls t p e =
    let h = run-IsTallied t p (start policies) calls none (record { policy = e; usage = refl }) in
    let bounded = run-IsBounded (start policies) calls (start-IsBounded policies) in
    subst (IsWithin p) h.usage (
      kept-IsWithin p (lookup t (run (start policies) calls).usage)
        (λ u f. bounded.at_tenant t p u h.policy f))
