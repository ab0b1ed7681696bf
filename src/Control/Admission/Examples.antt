-- ===== src/Control/Admission/Examples.antt =====
-- backend/control/admission.py on one tenant.
use ryuk.Prelude.{length, true, ◌≤◌, ◌≡◌, refl, none, some, List, [], ◌∷◌}
use ryuk.Prelude.Int.{pos, negsuc}
use ryuk.Prelude.Dict.{Dict, lookup, insert}
use ryuk.Control.Admission.{
  QuotaPolicy, start, admit, admit_policy, admit_with, roll_window, over_quota, release,
  release_usage,
}
use ryuk.Control.Admission.Redis.{
  redis_start, read_key, delivered, reply_lost, redis_admit, eval_admit, deliver, admit_script,
  set_minute, over_limits, live, redis_release, release_script, give_permit,
}
use ryuk.Control.Admission.Redis.Calls.{
  RedisCall, admit_at, release_at, redis_run, held, holds, let_go, releases_held, in_order, told,
}
use ryuk.Control.Admission.Redis.Keys.{KeyOk}
use ryuk.Control.Admission.Redis.Permits.{redis_permits}
use ryuk.Control.Admission.Usage.{Call, admit_call, release_call}
use ryuk.Control.Admission.Bounds.{tally, window_at, IsWithin, run_quota}

abbrev two_at_once : QuotaPolicy
two_at_once = record { requests_per_minute = 5; concurrent_requests = 2; tokens_per_minute = 100 }

abbrev quotas : Dict QuotaPolicy
quotas = ("t", two_at_once) ∷ []

-- The third call is refused, and so is the negative estimate.
abbrev calls : List Call
calls =
    admit_call "t" (pos 40) 0
    ∷ admit_call "t" (pos 40) 10
    ∷ admit_call "t" (pos 10) 20
    ∷ admit_call "t" (negsuc 0) 30
    ∷ release_call "t"
    ∷ []

-- Two requests go ahead with 80 tokens, and one of them is released.
tally_after :
    tally "t" (start quotas) calls none
    ≡ some (record { opened = 0; requests = 2; tokens = 80; held = 1 })
unfolding start tally window_at admit admit_policy admit_with roll_window over_quota release
    release_usage lookup insert
tally_after = refl

lookup_quota : lookup "t" quotas ≡ some two_at_once
unfolding lookup
lookup_quota = refl

run_quota_example : IsWithin two_at_once (tally "t" (start quotas) calls none)
run_quota_example = run_quota quotas calls "t" two_at_once lookup_quota

-- One reply is lost, so that its permit stays taken; the last call is refused.
abbrev redis_calls : List RedisCall
redis_calls =
    admit_at "t" 1 (pos 40) delivered 0
    ∷ admit_at "t" 2 (pos 40) reply_lost 10
    ∷ admit_at "t" 3 (pos 10) delivered 20
    ∷ release_at "t" 1 delivered 30
    ∷ admit_at "t" 4 (pos 10) delivered 70
    ∷ []

calls_in_order : in_order 0 redis_calls ≡ true
unfolding in_order
calls_in_order = refl

calls_released_once : releases_held "t" (redis_start quotas) redis_calls [] ≡ true
unfolding redis_start redis_admit eval_admit deliver admit_script set_minute over_limits live
    redis_release release_script give_permit lookup insert releases_held holds let_go
calls_released_once = refl

held_after : held "t" (redis_start quotas) redis_calls [] ≡ 4 ∷ []
unfolding redis_start redis_admit eval_admit deliver admit_script set_minute over_limits live
    redis_release release_script give_permit lookup insert held let_go
held_after = refl

told_after :
    told "t" 0 (redis_start quotas) redis_calls (record { requests = 0; tokens = 0 })
    ≡ record { requests = 1; tokens = 40 }
unfolding redis_start redis_admit eval_admit deliver admit_script set_minute over_limits live
    redis_release release_script give_permit lookup insert told
told_after = refl

redis_permits_example :
    (length (held "t" (redis_start quotas) redis_calls []) ≤ 2)
    × ((told "t" 0 (redis_start quotas) redis_calls (record { requests = 0; tokens = 0 })).requests
        ≤ 5)
    × ((told "t" 0 (redis_start quotas) redis_calls (record { requests = 0; tokens = 0 })).tokens
        ≤ 100)
    × KeyOk two_at_once (read_key (redis_run (redis_start quotas) redis_calls) "t" 500)
redis_permits_example =
    redis_permits quotas redis_calls "t" two_at_once 0 500 lookup_quota calls_in_order
      calls_released_once

-- A request that is released twice gives back a permit that another one holds: three are held at once.
abbrev released_twice : List RedisCall
released_twice =
    admit_at "t" 1 (pos 10) delivered 0
    ∷ admit_at "t" 2 (pos 10) delivered 0
    ∷ release_at "t" 1 delivered 1
    ∷ release_at "t" 1 delivered 1
    ∷ admit_at "t" 3 (pos 10) delivered 2
    ∷ admit_at "t" 4 (pos 10) delivered 2
    ∷ []

held_beyond_quota : held "t" (redis_start quotas) released_twice [] ≡ 4 ∷ 3 ∷ 2 ∷ []
unfolding redis_start redis_admit eval_admit deliver admit_script set_minute over_limits live
    redis_release release_script give_permit lookup insert held let_go
held_beyond_quota = refl
