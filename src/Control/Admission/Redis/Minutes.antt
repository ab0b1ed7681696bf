-- ===== src/Control/Admission/Redis/Minutes.antt =====
-- What the requests of one minute have left in a tenant's key of backend/control/admission.py.
use ryuk.Prelude.{
  ℕ, ◌-◌, ◌/◌, ◌≤◌, ◌<◌, ◌≡◌, refl, ◌∙◌, ap, Bool, true, false, ◌&&◌, inl, inr, Option, none, some,
  leb, eqb, arith, Option-cases, Bool-cases, if◌then◌else◌,
}
use ryuk.Prelude.Int.{ℤ, pos}
use ryuk.Control.Admission.{QuotaPolicy}
use ryuk.Control.Admission.Redis.{
  UsageHash, live, is_minute, set_minute, take_permit, over_limits, admit_script, give_permit,
}
use ryuk.Control.Admission.Redis.Calls.{Told, tell}
use ryuk.Control.Admission.Redis.Keys.{KeyOk, stored}

-- The key does not go before the minute is over.
abbrev pub Outlasts : ℕ → Option ℕ → Type 0
Outlasts m none = Unit
Outlasts m (some e) = m < e / 60

-- At a time, for a minute and what was told to go ahead in it: nothing yet; or the minute is over; or it
-- is the current one, and the key counts at least what was told.
pub data InMinute (p : QuotaPolicy) (m now : ℕ) (h : UsageHash) (w : Told) : Type 0 where
  nothing : w.requests ≡ 0 → w.tokens ≡ 0 → InMinute p m now h w
  over :
      m < now / 60
      → w.requests ≤ p.requests_per_minute
      → w.tokens ≤ p.tokens_per_minute
      → InMinute p m now h w
  current :
      now / 60 ≡ m
      → h.minute ≡ some m
      → w.requests ≤ h.requests
      → w.tokens ≤ h.tokens
      → Outlasts m h.expires_at
      → InMinute p m now h w

is_minute-some : (o : Option ℕ) (n : ℕ) → is_minute o n ≡ true → o ≡ some n
is_minute-some none n h = absurd cc
is_minute-some (some k) n h = ap some (let same : k ≡ n = ground arith in same)

module _ (p : QuotaPolicy) (m : ℕ) where
  pub InMinute-bounded :
      (now : ℕ) (h : UsageHash) (w : Told)
      → KeyOk p h
      → InMinute p m now h w
      → (w.requests ≤ p.requests_per_minute) × (w.tokens ≤ p.tokens_per_minute)
  InMinute-bounded now h w k (nothing r t) = (omega arith, omega arith)
  InMinute-bounded now h w k (over past r t) = (r, t)
  InMinute-bounded now h w k (current here minute r t lasts) =
      (omega (arith, k.requests, r), omega (arith, k.tokens, t))

  -- Time alone leaves the minute, or goes on in it.
  pub advance :
      (last now : ℕ) (h : UsageHash) (w : Told)
      → last ≤ now
      → KeyOk p h
      → InMinute p m last h w
      → InMinute p m now h w
  advance last now h w later k (nothing r t) = nothing r t
  advance last now h w later k (over past r t) = over (omega arith) r t
  advance last now h w later k (current here minute r t lasts) =
      elim (Bool-cases (eqb (now / 60) m)) [
        | inl still ↦ current (ground arith) minute r t lasts
        | inr left ↦
            let (rs, ts) = InMinute-bounded last h w k (current here minute r t lasts) in
            let ahead : last / 60 ≤ now / 60 = omega arith in over (ground arith) rs ts
      ]

  pub live-InMinute :
      (now : ℕ) (o : Option UsageHash) (w : Told)
      → InMinute p m now (stored o) w
      → InMinute p m now (live now o) w
  unfolding live
  live-InMinute now none w i = i
  live-InMinute now (some h) w (nothing r t) = nothing r t
  live-InMinute now (some h) w (over past r t) = over past r t
  live-InMinute now (some h) w (current here minute r t lasts) = elim (Option-cases h.expires_at) [
    | inl forever ↦ rw forever (current here minute r t lasts)
    | inr (e, expires) ↦
        let after : m < e / 60 = rw expires at lasts in
        let not_yet : leb e now ≡ false = ground arith in
        rw (expires, not_yet) (current here minute r t lasts)
  ]

  set_minute-InMinute :
      (now : ℕ) (h : UsageHash) (w : Told)
      → InMinute p m now h w
      → InMinute p m now (set_minute (now / 60) h) w
  unfolding set_minute
  set_minute-InMinute now h w (nothing r t) = nothing r t
  set_minute-InMinute now h w (over past r t) = over past r t
  set_minute-InMinute now h w (current here minute r t lasts) =
      let same : is_minute h.minute (now / 60) ≡ true = rw (minute, here) (ground arith) in
      rw same (current here minute r t lasts)

  -- A request that is told to go ahead is counted in its own minute.
  abbrev pub tell_at : ℕ → Bool → ℤ → Told → Told
  tell_at now answer e w = if answer && eqb (now / 60) m then tell e w else w

  set_minute-minute : (n : ℕ) (h : UsageHash) → (set_minute n h).minute ≡ some n
  unfolding set_minute
  set_minute-minute n h = elim (Bool-cases (is_minute h.minute n)) [
    | inr before ↦ rw before refl
    | inl now ↦ rw now (is_minute-some h.minute n now)
  ]

  take_permit-InMinute :
      (n now : ℕ) (h : UsageHash) (w : Told)
      → h.minute ≡ some (now / 60)
      → InMinute p m now h w
      → InMinute p m now (take_permit n h) w
        × InMinute p m now (take_permit n h) (tell_at now true (pos n) w)
  take_permit-InMinute n now h w minute i = elim (Bool-cases (eqb (now / 60) m)) [
    | inl here ↦
        let same : now / 60 ≡ m = ground arith in
        let at_m : h.minute ≡ some m = minute ∙ ap some same in
        elim i [
          | nothing r t ↦ (
            current same at_m (omega arith) (omega arith) tt,
            rw here (current same at_m (omega arith) (omega arith) tt),
          )
          | over past r t ↦ absurd (omega arith)
          | current here' minute' r t lasts ↦ (
            current same at_m (omega arith) (omega arith) tt,
            rw here (current same at_m (omega arith) (omega arith) tt),
          )
        ]
    | inr elsewhere ↦
        let i' : InMinute p m now (take_permit n h) w = elim i [
          | nothing r t ↦ nothing r t
          | over past r t ↦ over past r t
          | current here minute' r t lasts ↦ absurd (ground arith)
        ] in
        (i', rw elsewhere i')
  ]

  -- What the script answers, with the request told to go ahead or not told.
  pub record Answered (e : ℤ) (now : ℕ) (w : Told) (r : Bool × UsageHash) : Type 0 where
    pub silent : InMinute p m now r.1 w
    pub heard : InMinute p m now r.1 (tell_at now r.0 e w)

  pub admit_script-Answered :
      (q : QuotaPolicy) (n now : ℕ) (h : UsageHash) (w : Told)
      → InMinute p m now h w
      → Answered (pos n) now w (admit_script q n now h)
  unfolding admit_script
  admit_script-Answered q n now h w i =
      let at_minute = set_minute-InMinute now h w i in
      elim (Bool-cases (over_limits q n (set_minute (now / 60) h))) [
        | inl exceeds ↦ rw exceeds (record { silent = at_minute; heard = at_minute })
        | inr fits ↦
            let (silent, heard) =
              take_permit-InMinute n now (set_minute (now / 60) h) w
                (set_minute-minute (now / 60) h) at_minute in
            rw fits (record { silent = silent; heard = heard })
      ]

  pub give_permit-InMinute :
      (now : ℕ) (h : UsageHash) (w : Told)
      → InMinute p m now h w
      → InMinute p m now (give_permit now h) w
  unfolding give_permit
  give_permit-InMinute now h w i = elim (Bool-cases (eqb (h.concurrent - 1) 0)) [
    | inl last ↦ rw last (elim i [
      | nothing r t ↦ nothing r t
      | over past r t ↦ over past r t
      | current here minute r t lasts ↦ current here minute r t (omega arith)
    ])
    | inr more ↦ rw more (elim i [
      | nothing r t ↦ nothing r t
      | over past r t ↦ over past r t
      | current here minute r t lasts ↦ current here minute r t lasts
    ])
  ]
