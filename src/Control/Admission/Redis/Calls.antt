-- ===== src/Control/Admission/Redis/Calls.antt =====
-- Sequences of calls of the Redis controller of backend/control/admission.py, and what their callers
-- know of them.
use ryuk.Prelude.{
  ℕ, ◌+◌, ◌/◌, String, Bool, true, false, ◌&&◌, ◌||◌, List, [], ◌∷◌, leb, eqb, if◌then◌else◌, ◌==◌,
}
use ryuk.Prelude.Int.{ℤ, pos, negsuc}
use ryuk.Control.Admission.Redis.{RedisAdmissionController, Delivery, redis_admit, redis_release}

-- A call for a tenant and one of its requests, at a time of the server's clock.
pub data RedisCall : Type 0 where
  admit_at : String → ℕ → ℤ → Delivery → ℕ → RedisCall
  release_at : String → ℕ → Delivery → ℕ → RedisCall

unfoldable pub redis_run : RedisAdmissionController → List RedisCall → RedisAdmissionController
redis_run c [] = c
redis_run c (admit_at u r e d now ∷ calls) = redis_run (redis_admit c u e d now).1 calls
redis_run c (release_at u r d now ∷ calls) = redis_run (redis_release c u d now) calls

unfoldable pub holds : ℕ → List ℕ → Bool
holds r [] = false
holds r (x ∷ xs) = eqb x r || holds r xs

-- The requests without this one.
unfoldable pub let_go : ℕ → List ℕ → List ℕ
let_go r [] = []
let_go r (x ∷ xs) = let rest = let_go r xs in if eqb x r then xs else x ∷ rest

-- The requests of a tenant that were told to go ahead and have not been released, after those given. A
-- second release of a request releases nothing.
unfoldable pub held : String → RedisAdmissionController → List RedisCall → List ℕ → List ℕ
held t c [] rs = rs
held t c (admit_at u r e d now ∷ calls) rs =
    held t (redis_admit c u e d now).1 calls
      (if u == t && (redis_admit c u e d now).0 then r ∷ rs else rs)
held t c (release_at u r d now ∷ calls) rs =
    held t (redis_release c u d now) calls (if u == t then let_go r rs else rs)

-- Every release of the tenant is of a request that was told to go ahead and has not been released.
unfoldable pub releases_held : String → RedisAdmissionController → List RedisCall → List ℕ → Bool
releases_held t c [] rs = true
releases_held t c (admit_at u r e d now ∷ calls) rs =
    releases_held t (redis_admit c u e d now).1 calls
      (if u == t && (redis_admit c u e d now).0 then r ∷ rs else rs)
releases_held t c (release_at u r d now ∷ calls) rs =
    (if u == t then holds r rs else true)
    && releases_held t (redis_release c u d now) calls (if u == t then let_go r rs else rs)

-- The server's clock does not run backwards.
unfoldable pub in_order : ℕ → List RedisCall → Bool
in_order last [] = true
in_order last (admit_at u r e d now ∷ calls) = leb last now && in_order now calls
in_order last (release_at u r d now ∷ calls) = leb last now && in_order now calls

-- How many requests were told to go ahead, and with how many tokens.
pub record Told : Type 0 where
  pub requests : ℕ
  pub tokens : ℕ

abbrev pub tokens_of : ℤ → ℕ
tokens_of (pos n) = n
tokens_of (negsuc n) = 0

abbrev pub tell : ℤ → Told → Told
tell e w = record { requests = w.requests + 1; tokens = w.tokens + tokens_of e }

-- Of a tenant, in one minute of the server's clock.
unfoldable pub told : String → ℕ → RedisAdmissionController → List RedisCall → Told → Told
told t m c [] w = w
told t m c (admit_at u r e d now ∷ calls) w =
    told t m (redis_admit c u e d now).1 calls
      (if u == t && (redis_admit c u e d now).0 && eqb (now / 60) m then tell e w else w)
told t m c (release_at u r d now ∷ calls) w = told t m (redis_release c u d now) calls w
