-- ===== src/Control/Admission/Redis/Keepers.antt =====
-- What a controller of backend/control/admission.py keeps of the requests of one minute.
use ryuk.Prelude.{
  ℕ, String, ◌≡◌, refl, Bool, false, inl, inr, Option, none, some, ltb, eq_refl, Bool-cases, ◌==◌,
}
use ryuk.Prelude.Int.{ℤ, pos, negsuc}
use ryuk.Prelude.Dict.{lookup, insert, lookup-insert}
use ryuk.Control.Admission.{QuotaPolicy}
use ryuk.Control.Admission.Redis.{
  UsageHash, RedisAdmissionController, Delivery, delivered, unreachable, reply_lost, read_key,
  put_key, admit_script, give_permit, release_script, deliver, eval_admit, redis_admit,
  redis_release,
}
use ryuk.Control.Admission.Redis.Calls.{Told}
use ryuk.Control.Admission.Redis.Keys.{stored}
use ryuk.Control.Admission.Redis.Minutes.{
  InMinute, tell_at, Answered, live-InMinute, admit_script-Answered, give_permit-InMinute,
}

-- The state of the minute in the tenant's key.
module _ (p : QuotaPolicy) (m : ℕ) (t : String) where
  abbrev pub At : RedisAdmissionController → ℕ → Told → Type 0
  At c now w = InMinute p m now (stored (lookup t c.keys)) w

  put_key-At :
      (c : RedisAdmissionController) (now : ℕ) (h : UsageHash) (w : Told)
      → InMinute p m now h w
      → At (put_key c t h) now w
  put_key-At c now h w i =
      let here : lookup t (insert t h c.keys) ≡ some h = rw (lookup-insert, eq_refl) refl in
      rw here i

  put_other-At :
      (c : RedisAdmissionController) (u : String) (now : ℕ) (h : UsageHash) (w : Told)
      → (u == t) ≡ false
      → At c now w
      → At (put_key c u h) now w
  put_other-At c u now h w other i =
      let there : lookup t (insert u h c.keys) ≡ lookup t c.keys = rw (lookup-insert, other) refl in
      rw there i

  deliver-At :
      (d : Delivery) (c : RedisAdmissionController) (e : ℤ) (now : ℕ) (r : Bool × UsageHash)
      (w : Told)
      → At c now w
      → Answered p m e now w r
      → At (deliver d c t r).1 now (tell_at p m now (deliver d c t r).0 e w)
  unfolding deliver
  deliver-At delivered c e now (granted, h) w i a = put_key-At c now h _ a.heard
  deliver-At unreachable c e now (granted, h) w i a = i
  deliver-At reply_lost c e now (granted, h) w i a = put_key-At c now h w a.silent

  pub admit-At :
      (c : RedisAdmissionController) (e : ℤ) (d : Delivery) (now : ℕ) (w : Told)
      → At c now w
      → At (redis_admit c t e d now).1 now (tell_at p m now (redis_admit c t e d now).0 e w)
  unfolding redis_admit
  admit-At c e d now w i = eval_self-At (lookup t c.policies) c e d now w i
    where
      eval_self-At :
          (o : Option QuotaPolicy) (c : RedisAdmissionController) (e : ℤ) (d : Delivery) (now : ℕ)
          (w : Told)
          → At c now w
          → At (eval_admit c t o e d now).1 now (tell_at p m now (eval_admit c t o e d now).0 e w)
      eval_self-At none c e d now w i = unfold eval_admit in i
      eval_self-At (some q) c (negsuc n) d now w i = unfold eval_admit in i
      eval_self-At (some q) c (pos n) d now w i =
          unfold eval_admit in
          deliver-At d c (pos n) now (admit_script q n now (read_key c t now)) w i (
            admit_script-Answered p m q n now (read_key c t now) w
              (live-InMinute p m now (lookup t c.keys) w i))

  pub admit_other-At :
      (c : RedisAdmissionController) (u : String) (e : ℤ) (d : Delivery) (now : ℕ) (w : Told)
      → (u == t) ≡ false
      → At c now w
      → At (redis_admit c u e d now).1 now w
  unfolding redis_admit
  admit_other-At c u e d now w other i = eval_other-At (lookup u c.policies) e d
    where
      eval_other-At :
          (o : Option QuotaPolicy) (e : ℤ) (d : Delivery) → At (eval_admit c u o e d now).1 now w
      eval_other-At none e d = unfold eval_admit in i
      eval_other-At (some q) (negsuc n) d = unfold eval_admit in i
      eval_other-At (some q) (pos n) unreachable = unfold eval_admit deliver in i
      eval_other-At (some q) (pos n) delivered =
          unfold eval_admit deliver in
          put_other-At c u now (admit_script q n now (read_key c u now)).1 w other i
      eval_other-At (some q) (pos n) reply_lost =
          unfold eval_admit deliver in
          put_other-At c u now (admit_script q n now (read_key c u now)).1 w other i

  script-At :
      (c : RedisAdmissionController) (now : ℕ) (w : Told)
      → At c now w
      → At (release_script c t now (read_key c t now)) now w
  unfolding release_script
  script-At c now w i = elim (Bool-cases (ltb 0 (read_key c t now).concurrent)) [
    | inl busy ↦ rw busy (
        put_key-At c now (give_permit now (read_key c t now)) w (
          give_permit-InMinute p m now (read_key c t now) w
            (live-InMinute p m now (lookup t c.keys) w i)))
    | inr idle ↦ rw idle i
  ]

  script_other-At :
      (c : RedisAdmissionController) (u : String) (now : ℕ) (w : Told)
      → (u == t) ≡ false
      → At c now w
      → At (release_script c u now (read_key c u now)) now w
  unfolding release_script
  script_other-At c u now w other i = elim (Bool-cases (ltb 0 (read_key c u now).concurrent)) [
    | inl busy ↦ rw busy (put_other-At c u now (give_permit now (read_key c u now)) w other i)
    | inr idle ↦ rw idle i
  ]

  pub release-At :
      (c : RedisAdmissionController) (d : Delivery) (now : ℕ) (w : Told)
      → At c now w
      → At (redis_release c t d now) now w
  unfolding redis_release
  release-At c unreachable now w i = i
  release-At c delivered now w i = script-At c now w i
  release-At c reply_lost now w i = script-At c now w i

  pub release_other-At :
      (c : RedisAdmissionController) (u : String) (d : Delivery) (now : ℕ) (w : Told)
      → (u == t) ≡ false
      → At c now w
      → At (redis_release c u d now) now w
  unfolding redis_release
  release_other-At c u unreachable now w other i = i
  release_other-At c u delivered now w other i = script_other-At c u now w other i
  release_other-At c u reply_lost now w other i = script_other-At c u now w other i
