-- ===== src/Control/Admission.antt =====
-- backend/control/admission.py: quotas for each tenant, in one process.
pub mod Usage
pub mod Bounds
pub mod Redis
mod Examples
use ryuk.Prelude.{
  ℕ, ◌+◌, ◌-◌, ◌≤◌, String, ◌≡◌, Bool, true, false, ◌||◌, Option, none, some, List, [], ◌∷◌, leb,
  ltb, min, if◌then◌else◌,
}
use ryuk.Prelude.Int.{ℤ, pos, negsuc}
use ryuk.Prelude.Dict.{Dict, lookup, insert}

pub record QuotaPolicy : Type 0 where
  pub requests_per_minute : ℕ
  pub concurrent_requests : ℕ
  pub tokens_per_minute : ℕ

-- `QuotaPolicy.__post_init__`: `none` is the ValueError.
pub check_quota : QuotaPolicy → Option QuotaPolicy
check_quota p =
    if ltb (min (min p.requests_per_minute p.concurrent_requests) p.tokens_per_minute) 1
    then none
    else some p

-- `window_started` and `now` are milliseconds of the monotonic clock.
pub record TenantUsage : Type 0 where
  pub window_started : ℕ
  pub requests : ℕ
  pub tokens : ℕ
  pub concurrent : ℕ

pub record AdmissionController : Type 0 where
  pub policies : Dict QuotaPolicy
  pub usage : Dict TenantUsage

pub start : Dict QuotaPolicy → AdmissionController
start policies = record { policies = policies; usage = [] }

abbrev pub window_ms : ℕ
window_ms = 60_000

abbrev pub fresh_usage : ℕ → TenantUsage
fresh_usage now = record { window_started = now; requests = 0; tokens = 0; concurrent = 0 }

-- `self._usage.setdefault(tenant_id, _TenantUsage(current))`
abbrev pub usage_or : Option TenantUsage → ℕ → TenantUsage
usage_or none now = fresh_usage now
usage_or (some u) now = u

-- The reset at the end of a window. A clock that runs backwards resets nothing.
unfoldable pub roll_window : TenantUsage → ℕ → TenantUsage
roll_window u now =
    if leb window_ms (now - u.window_started)
    then record u { window_started = now; requests = 0; tokens = 0 }
    else u

unfoldable pub over_quota : QuotaPolicy → TenantUsage → ℕ → Bool
over_quota p u estimated =
    leb p.requests_per_minute u.requests
    || ltb p.tokens_per_minute (u.tokens + estimated)
    || leb p.concurrent_requests u.concurrent

abbrev pub count_request : TenantUsage → ℕ → TenantUsage
count_request u estimated = record u {
  requests = u.requests + 1;
  tokens = u.tokens + estimated;
  concurrent = u.concurrent + 1;
}

abbrev pub put_usage : AdmissionController → String → TenantUsage → AdmissionController
put_usage c tenant u = record c { usage = insert tenant u c.usage }

abbrev pub current_usage : AdmissionController → String → ℕ → TenantUsage
current_usage c tenant now = roll_window (usage_or (lookup tenant c.usage) now) now

-- The rest of `admit`, once a policy is found and the estimate is not negative.
unfoldable pub admit_with :
    AdmissionController → String → QuotaPolicy → ℕ → ℕ → Bool × AdmissionController
admit_with c tenant p estimated now =
    let u = current_usage c tenant now in
    if over_quota p u estimated
    then (false, put_usage c tenant u)
    else (true, put_usage c tenant (count_request u estimated))

unfoldable pub admit_policy :
    AdmissionController → String → Option QuotaPolicy → ℤ → ℕ → Bool × AdmissionController
admit_policy c tenant none estimated now = (false, c)
admit_policy c tenant (some p) (negsuc n) now = (false, c)
admit_policy c tenant (some p) (pos n) now = admit_with c tenant p n now

unfoldable pub admit : AdmissionController → String → ℤ → ℕ → Bool × AdmissionController
admit c tenant estimated now = admit_policy c tenant (lookup tenant c.policies) estimated now

unfoldable pub release_usage :
    AdmissionController → String → Option TenantUsage → AdmissionController
release_usage c tenant none = c
release_usage c tenant (some u) =
    if ltb 0 u.concurrent
    then put_usage c tenant (record u { concurrent = u.concurrent - 1 })
    else c

unfoldable pub release : AdmissionController → String → AdmissionController
release c tenant = release_usage c tenant (lookup tenant c.usage)
