-- ===== src/Control/Admission/Redis/Safety.antt =====
-- The permits that the Redis controller of backend/control/admission.py grants.
use ryuk.Prelude.{
  ℕ, suc, length, ◌+◌, ◌-◌, ◌≤◌, String, ◌≡◌, refl, Bool, true, false, inl, inr, Option, none, some,
  List, [], ◌∷◌, ltb, eqb, arith, eq_refl, text-cases, Bool-cases, if◌then◌else◌, ◌==◌,
}
use mathlib.Core.Path.{subst}
use ryuk.Prelude.Int.{ℤ, pos, negsuc}
use ryuk.Prelude.Dict.{lookup, insert, lookup-insert}
use ryuk.Control.Admission.{QuotaPolicy}
use ryuk.Control.Admission.Redis.{
  UsageHash, RedisAdmissionController, Delivery, delivered, unreachable, reply_lost, read_key,
  put_key, admit_script, give_permit, release_script, deliver, eval_admit, redis_admit,
  redis_release,
}
use ryuk.Control.Admission.Redis.Calls.{
  RedisCall, admit_at, release_at, redis_run, held, holds, let_go, releases_held,
}
use ryuk.Control.Admission.Redis.Keys.{
  KeyOk, Granted, stored, live-KeyOk, admit_script-Granted, give_permit-KeyOk,
}

-- The tenant's key is in order, and counts at least the permits that are held.
pub record Safe (t : String) (p : QuotaPolicy) (c : RedisAdmissionController) (n : ℕ) : Type 0 where
  pub policy : lookup t c.policies ≡ some p
  pub fine : KeyOk p (stored (lookup t c.keys))
  pub counts : n ≤ (stored (lookup t c.keys)).concurrent

module _ (t : String) (p : QuotaPolicy) where
  put_key-Safe :
      (c : RedisAdmissionController) (h : UsageHash) (n : ℕ)
      → lookup t c.policies ≡ some p
      → KeyOk p h
      → n ≤ h.concurrent
      → Safe t p (put_key c t h) n
  put_key-Safe c h n e k counts =
      let here : lookup t (insert t h c.keys) ≡ some h = rw (lookup-insert, eq_refl) refl in
      record { policy = e; fine = rw here k; counts = rw here counts }

  put_other-Safe :
      (c : RedisAdmissionController) (u : String) (h : UsageHash) (n : ℕ)
      → (u == t) ≡ false
      → Safe t p c n
      → Safe t p (put_key c u h) n
  put_other-Safe c u h n other s =
      let there : lookup t (insert u h c.keys) ≡ lookup t c.keys = rw (lookup-insert, other) refl in
      record { policy = s.policy; fine = rw there s.fine; counts = rw there s.counts }

  deliver-Safe :
      (d : Delivery) (c : RedisAdmissionController) (h : UsageHash) (r : Bool × UsageHash) (n : ℕ)
      → Safe t p c n
      → Granted p h r
      → n ≤ h.concurrent
      → Safe t p (deliver d c t r).1 (if (deliver d c t r).0 then n + 1 else n)
  unfolding deliver
  deliver-Safe delivered c h (true, after) n s g counts =
      put_key-Safe c after (n + 1) s.policy g.fine (omega (arith, g.counted))
  deliver-Safe delivered c h (false, after) n s g counts =
      put_key-Safe c after n s.policy g.fine (omega (arith, g.counted))
  deliver-Safe unreachable c h (granted, after) n s g counts = s
  deliver-Safe reply_lost c h (true, after) n s g counts =
      put_key-Safe c after n s.policy g.fine (omega (arith, g.counted))
  deliver-Safe reply_lost c h (false, after) n s g counts =
      put_key-Safe c after n s.policy g.fine (omega (arith, g.counted))

  deliver_other-Safe :
      (d : Delivery) (c : RedisAdmissionController) (u : String) (r : Bool × UsageHash) (n : ℕ)
      → (u == t) ≡ false
      → Safe t p c n
      → Safe t p (deliver d c u r).1 n
  unfolding deliver
  deliver_other-Safe delivered c u (granted, after) n other s = put_other-Safe c u after n other s
  deliver_other-Safe unreachable c u (granted, after) n other s = s
  deliver_other-Safe reply_lost c u (granted, after) n other s = put_other-Safe c u after n other s

  admit_self-Safe :
      (c : RedisAdmissionController) (e : ℤ) (d : Delivery) (now n : ℕ)
      → Safe t p c n
      → Safe t p (redis_admit c t e d now).1 (if (redis_admit c t e d now).0 then n + 1 else n)
  unfolding redis_admit eval_admit
  admit_self-Safe c (negsuc m) d now n s = rw s.policy s
  admit_self-Safe c (pos m) d now n s =
      let (k, same) = live-KeyOk p now (lookup t c.keys) s.fine in
      rw s.policy (
        deliver-Safe d c (read_key c t now) (admit_script p m now (read_key c t now)) n s
          (admit_script-Granted p m now (read_key c t now) k) (omega (arith, same, s.counts)))

  eval_other-Safe :
      (c : RedisAdmissionController) (u : String) (o : Option QuotaPolicy) (e : ℤ) (d : Delivery)
      (now n : ℕ)
      → (u == t) ≡ false
      → Safe t p c n
      → Safe t p (eval_admit c u o e d now).1 n
  unfolding eval_admit
  eval_other-Safe c u none e d now n other s = s
  eval_other-Safe c u (some q) (negsuc m) d now n other s = s
  eval_other-Safe c u (some q) (pos m) d now n other s =
      deliver_other-Safe d c u (admit_script q m now (read_key c u now)) n other s

  fewer : (c : RedisAdmissionController) (n : ℕ) → Safe t p c n → Safe t p c (n - 1)
  fewer c n s = record { policy = s.policy; fine = s.fine; counts = omega (arith, s.counts) }

  release_script-Safe :
      (c : RedisAdmissionController) (now n : ℕ)
      → Safe t p c n
      → Safe t p (release_script c t now (read_key c t now)) (n - 1)
  unfolding release_script
  release_script-Safe c now n s =
      let (k, same) = live-KeyOk p now (lookup t c.keys) s.fine in
      elim (Bool-cases (ltb 0 (read_key c t now).concurrent)) [
        | inr none_left ↦ rw none_left (fewer c n s)
        | inl busy ↦
            let (after, one_less) = give_permit-KeyOk p now (read_key c t now) k (ground arith) in
            rw busy (
              put_key-Safe c (give_permit now (read_key c t now)) (n - 1) s.policy after
                (omega (arith, one_less, same, s.counts)))
      ]

  release_other-Safe :
      (c : RedisAdmissionController) (u : String) (now n : ℕ)
      → (u == t) ≡ false
      → Safe t p c n
      → Safe t p (release_script c u now (read_key c u now)) n
  unfolding release_script
  release_other-Safe c u now n other s = elim (Bool-cases (ltb 0 (read_key c u now).concurrent)) [
    | inr none_left ↦ rw none_left s
    | inl busy ↦ rw busy (put_other-Safe c u (give_permit now (read_key c u now)) n other s)
  ]

  release_self-Safe :
      (c : RedisAdmissionController) (d : Delivery) (now n : ℕ)
      → Safe t p c n
      → Safe t p (redis_release c t d now) (n - 1)
  unfolding redis_release
  release_self-Safe c unreachable now n s = fewer c n s
  release_self-Safe c delivered now n s = release_script-Safe c now n s
  release_self-Safe c reply_lost now n s = release_script-Safe c now n s

  redis_release-other :
      (c : RedisAdmissionController) (u : String) (d : Delivery) (now n : ℕ)
      → (u == t) ≡ false
      → Safe t p c n
      → Safe t p (redis_release c u d now) n
  unfolding redis_release
  redis_release-other c u unreachable now n other s = s
  redis_release-other c u delivered now n other s = release_other-Safe c u now n other s
  redis_release-other c u reply_lost now n other s = release_other-Safe c u now n other s

length-holds : (r : ℕ) (rs : List ℕ) → holds r rs ≡ true → 1 ≤ length rs
unfolding holds
length-holds r [] h = absurd cc
length-holds r (x ∷ xs) h = omega arith

-- A request that is let go was held.
length-let_go : (r : ℕ) (rs : List ℕ) → holds r rs ≡ true → length (let_go r rs) ≡ length rs - 1
unfolding holds let_go
length-let_go r [] h = absurd cc
length-let_go r (x ∷ xs) h = elim (Bool-cases (eqb x r)) [
  | inl here ↦ rw here (omega arith)
  | inr elsewhere ↦
      let later = length-let_go r xs (ground arith) in
      let some_left = length-holds r xs (ground arith) in
      rw elsewhere (omega (arith, later, some_left))
]

module _ (t : String) (p : QuotaPolicy) where
  at_least : (c : RedisAdmissionController) (n : ℕ) → Safe t p c n → Safe t p c 0
  at_least c n s = record { policy = s.policy; fine = s.fine; counts = omega arith }

  admit_other-Safe :
      (c : RedisAdmissionController) (u : String) (e : ℤ) (d : Delivery) (now n : ℕ)
      → (u == t) ≡ false
      → Safe t p c n
      → Safe t p (redis_admit c u e d now).1 n
  unfolding redis_admit
  admit_other-Safe c u e d now n other s =
      eval_other-Safe t p c u (lookup u c.policies) e d now n other s

  admit_held-Safe :
      (c : RedisAdmissionController) (r : ℕ) (e : ℤ) (d : Delivery) (now : ℕ) (rs : List ℕ)
      → Safe t p c (length rs)
      → Safe t p
          (redis_admit c t e d now).1
          (length (if (redis_admit c t e d now).0 then r ∷ rs else rs))
  admit_held-Safe c r e d now rs s =
      let after = admit_self-Safe t p c e d now (length rs) s in
      elim (Bool-cases (redis_admit c t e d now).0) [
        | inl granted ↦
            let one_more : length rs + 1 ≡ suc (length rs) = omega arith in
            rw granted (subst (Safe t p (redis_admit c t e d now).1) one_more (rw granted at after))
        | inr refused ↦ rw refused (rw refused at after)
      ]

  pub run-Safe :
      (calls : List RedisCall) (c : RedisAdmissionController) (rs : List ℕ)
      → releases_held t c calls rs ≡ true
      → Safe t p c (length rs)
      → Safe t p (redis_run c calls) (length (held t c calls rs))
  unfolding redis_run held releases_held
  run-Safe [] c rs paired s = s
  run-Safe (admit_at u r e d now ∷ calls) c rs paired s = elim (text-cases u t) [
    | inl same ↦
        rw (same, eq_refl)
          (run-Safe calls (redis_admit c t e d now).1
            (if (redis_admit c t e d now).0 then r ∷ rs else rs) (rw (same, eq_refl) at paired)
            (admit_held-Safe c r e d now rs s))
    | inr other ↦ rw other (
        run-Safe calls (redis_admit c u e d now).1 rs (rw other at paired)
          (admit_other-Safe c u e d now (length rs) other s))
  ]
  run-Safe (release_at u r d now ∷ calls) c rs paired s = elim (text-cases u t) [
    | inl same ↦
        let pair = rw (same, eq_refl) at paired in
        let here : holds r rs ≡ true = ground arith in
        rw (same, eq_refl)
          (run-Safe calls (redis_release c t d now) (let_go r rs) (ground arith)
            (rw (length-let_go r rs here) (release_self-Safe t p c d now (length rs) s)))
    | inr other ↦ rw other (
        run-Safe calls (redis_release c u d now) rs (rw other at paired)
          (redis_release-other t p c u d now (length rs) other s))
  ]

  -- A key that is in order stays in order, whoever calls.
  pub admit_any-Safe :
      (c : RedisAdmissionController) (u : String) (e : ℤ) (d : Delivery) (now : ℕ)
      → Safe t p c 0
      → Safe t p (redis_admit c u e d now).1 0
  admit_any-Safe c u e d now s = elim (text-cases u t) [
    | inl same ↦
        rw same (at_least (redis_admit c t e d now).1 _ (admit_self-Safe t p c e d now 0 s))
    | inr other ↦ admit_other-Safe c u e d now 0 other s
  ]

  pub release_any-Safe :
      (c : RedisAdmissionController) (u : String) (d : Delivery) (now : ℕ)
      → Safe t p c 0
      → Safe t p (redis_release c u d now) 0
  release_any-Safe c u d now s = elim (text-cases u t) [
    | inl same ↦ rw same (at_least (redis_release c t d now) _ (release_self-Safe t p c d now 0 s))
    | inr other ↦ redis_release-other t p c u d now 0 other s
  ]
