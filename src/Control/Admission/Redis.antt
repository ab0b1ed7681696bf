-- ===== src/Control/Admission/Redis.antt =====
-- backend/control/admission.py: quotas for each tenant, shared by processes through Redis. A script
-- runs on the server as one step, on the one key of its tenant.
pub mod Calls
pub mod Keys
pub mod Minutes
pub mod Keepers
pub mod Permits
pub mod Safety
use ryuk.Prelude.{
  ℕ, zero, suc, ◌+◌, ◌*◌, ◌-◌, ◌/◌, ◌≤◌, String, ◌≡◌, Bool, true, false, not, ◌||◌, ◌&&◌, Option,
  none, some, List, [], ◌∷◌, leb, ltb, eqb, if◌then◌else◌,
}
use ryuk.Prelude.Int.{ℤ, pos, negsuc}
use ryuk.Prelude.Dict.{Dict, lookup, insert}
use ryuk.Control.Admission.{QuotaPolicy}

-- The hash at a tenant's key, with the key's time to live. A field that is not set counts as 0, as
-- the scripts' `or '0'` and HINCRBY have it; `minute` says whether it is set.
pub record UsageHash : Type 0 where
  pub minute : Option ℕ
  pub requests : ℕ
  pub tokens : ℕ
  pub concurrent : ℕ
  pub expires_at : Option ℕ

abbrev pub no_key : UsageHash
no_key = record { minute = none; requests = 0; tokens = 0; concurrent = 0; expires_at = none }

pub record RedisAdmissionController : Type 0 where
  pub policies : Dict QuotaPolicy
  pub keys : Dict UsageHash

-- The constructor, on a server that has no keys yet.
unfoldable pub redis_start : Dict QuotaPolicy → RedisAdmissionController
redis_start policies = record { policies = policies; keys = [] }

-- What becomes of a call of the client: the server runs the script and the reply arrives, the server
-- is not reached, or the script runs and the reply is lost. The last two raise.
pub data Delivery : Type 0 where
  delivered unreachable reply_lost : Delivery

-- The server drops a key whose time is over. Times are the server's seconds.
unfoldable pub live : ℕ → Option UsageHash → UsageHash
live now none = no_key
live now (some h) = elim h.expires_at [ none ↦ h | some t ↦ (if leb t now then no_key else h) ]

abbrev pub read_key : RedisAdmissionController → String → ℕ → UsageHash
read_key c tenant now = live now (lookup tenant c.keys)

abbrev pub put_key : RedisAdmissionController → String → UsageHash → RedisAdmissionController
put_key c tenant h = record c { keys = insert tenant h c.keys }

abbrev pub is_minute : Option ℕ → ℕ → Bool
is_minute none m = false
is_minute (some stored) m = eqb stored m

-- HSET of the three fields; the key's time to live stays.
unfoldable pub set_minute : ℕ → UsageHash → UsageHash
set_minute m h =
    if is_minute h.minute m then h else record h { minute = some m; requests = 0; tokens = 0 }

unfoldable pub over_limits : QuotaPolicy → ℕ → UsageHash → Bool
over_limits p estimated h =
    leb p.requests_per_minute h.requests
    || ltb p.tokens_per_minute (h.tokens + estimated)
    || leb p.concurrent_requests h.concurrent

-- HINCRBY of the three fields, and PERSIST.
abbrev pub take_permit : ℕ → UsageHash → UsageHash
take_permit estimated h = record h {
  requests = h.requests + 1;
  tokens = h.tokens + estimated;
  concurrent = h.concurrent + 1;
  expires_at = none;
}

-- `_ADMIT_SCRIPT`
unfoldable pub admit_script : QuotaPolicy → ℕ → ℕ → UsageHash → Bool × UsageHash
admit_script p estimated now h =
    let current = set_minute (now / 60) h in
    if over_limits p estimated current
    then (false, current)
    else (true, take_permit estimated current)

-- HINCRBY by −1, and EXPIRE once nothing is left.
unfoldable pub give_permit : ℕ → UsageHash → UsageHash
give_permit now h =
    if eqb (h.concurrent - 1) 0
    then record h { concurrent = h.concurrent - 1; expires_at = some (now + 180) }
    else record h { concurrent = h.concurrent - 1 }

-- `_RELEASE_SCRIPT`
unfoldable pub release_script :
    RedisAdmissionController → String → ℕ → UsageHash → RedisAdmissionController
release_script c tenant now h =
    if ltb 0 h.concurrent then put_key c tenant (give_permit now h) else c

-- What the client makes of the script's answer.
unfoldable pub deliver :
    Delivery
    → RedisAdmissionController
    → String
    → Bool × UsageHash
    → Bool × RedisAdmissionController
deliver delivered c tenant (granted, h) = (granted, put_key c tenant h)
deliver unreachable c tenant (granted, h) = (false, c)
deliver reply_lost c tenant (granted, h) = (false, put_key c tenant h)

unfoldable pub eval_admit :
    RedisAdmissionController
    → String
    → Option QuotaPolicy
    → ℤ
    → Delivery
    → ℕ
    → Bool × RedisAdmissionController
eval_admit c tenant none estimated d now = (false, c)
eval_admit c tenant (some p) (negsuc n) d now = (false, c)
eval_admit c tenant (some p) (pos n) d now =
    deliver d c tenant (admit_script p n now (read_key c tenant now))

-- `RedisAdmissionController.admit`
unfoldable pub redis_admit :
    RedisAdmissionController → String → ℤ → Delivery → ℕ → Bool × RedisAdmissionController
redis_admit c tenant estimated d now =
    eval_admit c tenant (lookup tenant c.policies) estimated d now

-- `RedisAdmissionController.release`; an exception is dropped, and so is the reply.
unfoldable pub redis_release :
    RedisAdmissionController → String → Delivery → ℕ → RedisAdmissionController
redis_release c tenant unreachable now = c
redis_release c tenant _ now = release_script c tenant now (read_key c tenant now)
