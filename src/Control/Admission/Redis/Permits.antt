-- ===== src/Control/Admission/Redis/Permits.antt =====
-- The quotas that the Redis controller of backend/control/admission.py keeps.
use ryuk.Prelude.{
  ℕ, length, ◌≤◌, String, ◌≡◌, refl, true, inl, inr, some, List, [], ◌∷◌, arith, eq_refl,
  text-cases,
}
use ryuk.Prelude.Dict.{Dict, lookup}
use ryuk.Control.Admission.{QuotaPolicy}
use ryuk.Control.Admission.Redis.{
  RedisAdmissionController, read_key, redis_admit, redis_release, redis_start,
}
use ryuk.Control.Admission.Redis.Calls.{
  RedisCall, admit_at, release_at, redis_run, held, releases_held, in_order, Told, told,
}
use ryuk.Control.Admission.Redis.Keys.{KeyOk, stored, no_key-KeyOk, live-KeyOk}
use ryuk.Control.Admission.Redis.Safety.{Safe, run-Safe, admit_any-Safe, release_any-Safe}
use ryuk.Control.Admission.Redis.Minutes.{nothing, InMinute-bounded, advance, tell_at}
use ryuk.Control.Admission.Redis.Keepers.{
  At, admit-At, admit_other-At, release-At, release_other-At,
}

record Fits (p : QuotaPolicy) (w : Told) : Type 0 where
  pub requests : w.requests ≤ p.requests_per_minute
  pub tokens : w.tokens ≤ p.tokens_per_minute

module _ (t : String) (p : QuotaPolicy) (m : ℕ) where
  -- The key is in order, and so is what it says of the minute.
  run-At :
      (calls : List RedisCall) (c : RedisAdmissionController) (last : ℕ) (w : Told)
      → in_order last calls ≡ true
      → Safe t p c 0
      → At p m t c last w
      → Fits p (told t m c calls w)
  unfolding told in_order
  run-At [] c last w ordered s i =
      let (requests, tokens) = InMinute-bounded p m last (stored (lookup t c.keys)) w s.fine i in
      record { requests = requests; tokens = tokens }
  run-At (admit_at u r e d now ∷ calls) c last w ordered s i =
      let i' = advance p m last now (stored (lookup t c.keys)) w (ground arith) s.fine i in
      elim (text-cases u t) [
        | inl same ↦
            rw (same, eq_refl)
              (run-At calls (redis_admit c t e d now).1 now
                (tell_at p m now (redis_admit c t e d now).0 e w) (ground arith)
                (admit_any-Safe t p c t e d now s) (admit-At p m t c e d now w i'))
        | inr other ↦ rw other (
            run-At calls (redis_admit c u e d now).1 now w (ground arith)
              (admit_any-Safe t p c u e d now s) (admit_other-At p m t c u e d now w other i'))
      ]
  run-At (release_at u r d now ∷ calls) c last w ordered s i =
      let i' = advance p m last now (stored (lookup t c.keys)) w (ground arith) s.fine i in
      elim (text-cases u t) [
        | inl same ↦ rw same (
            run-At calls (redis_release c t d now) now w (ground arith)
              (release_any-Safe t p c t d now s) (release-At p m t c d now w i'))
        | inr other ↦
            run-At calls (redis_release c u d now) now w (ground arith)
              (release_any-Safe t p c u d now s) (release_other-At p m t c u d now w other i')
      ]

-- Whatever calls are made by however many processes, at times of a clock that does not run backwards,
-- whether or not they reach the server and their replies arrive, if only requests that were told to go
-- ahead are released, each once: in every minute of the clock, the requests of a tenant that were told to
-- go ahead are no more than its quota of requests, and their tokens no more than its quota of tokens;
-- those that have not been released are no more than its quota of concurrent requests; and while its key
-- counts a permit, the key has no time to live.
pub redis_permits :
    (policies : Dict QuotaPolicy) (calls : List RedisCall) (t : String) (p : QuotaPolicy)
    (minute now : ℕ)
    → lookup t policies ≡ some p
    → in_order 0 calls ≡ true
    → releases_held t (redis_start policies) calls [] ≡ true
    → (length (held t (redis_start policies) calls []) ≤ p.concurrent_requests)
      × ((told t minute (redis_start policies) calls (record { requests = 0; tokens = 0 })).requests
          ≤ p.requests_per_minute)
      × ((told t minute (redis_start policies) calls (record { requests = 0; tokens = 0 })).tokens
          ≤ p.tokens_per_minute)
      × KeyOk p (read_key (redis_run (redis_start policies) calls) t now)
unfolding redis_start lookup
redis_permits policies calls t p minute now e ordered paired =
    let first : Safe t p (redis_start policies) 0 = record {
      policy = e;
      fine = no_key-KeyOk p;
      counts = omega arith;
    } in
    let s = run-Safe t p calls (redis_start policies) [] paired first in
    let fits =
      run-At t p minute calls (redis_start policies) 0 (record { requests = 0; tokens = 0 }) ordered
        first (nothing refl refl) in
    (
      omega (arith, s.counts, s.fine.concurrent),
      fits.requests,
      fits.tokens,
      (live-KeyOk p now (lookup t (redis_run (redis_start policies) calls).keys) s.fine).0,
    )
