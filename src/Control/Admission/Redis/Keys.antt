-- ===== src/Control/Admission/Redis/Keys.antt =====
-- What the two scripts of backend/control/admission.py keep of a tenant's key.
use ryuk.Prelude.{
  ℕ, ◌+◌, ◌-◌, ◌/◌, ◌≤◌, ◌<◌, ◌≡◌, refl, sym, Bool, inl, inr, ◌⊎◌, Option, none, some, leb, eqb,
  arith, Option-cases, Bool-cases, if◌then◌else◌,
}
use ryuk.Control.Admission.{QuotaPolicy}
use ryuk.Control.Admission.Redis.{
  UsageHash, no_key, live, is_minute, set_minute, over_limits, admit_script, give_permit,
}

pub record KeyOk (p : QuotaPolicy) (h : UsageHash) : Type 0 where
  pub requests : h.requests ≤ p.requests_per_minute
  pub tokens : h.tokens ≤ p.tokens_per_minute
  pub concurrent : h.concurrent ≤ p.concurrent_requests
  -- A key with an active permit has no time to live.
  pub kept : (h.concurrent ≡ 0) ⊎ (h.expires_at ≡ none)

abbrev pub stored : Option UsageHash → UsageHash
stored none = no_key
stored (some h) = h

pub no_key-KeyOk : (p : QuotaPolicy) → KeyOk p no_key
no_key-KeyOk p = record {
  requests = omega arith;
  tokens = omega arith;
  concurrent = omega arith;
  kept = inl refl;
}

idle :
    (h : UsageHash) (t : ℕ)
    → (h.concurrent ≡ 0) ⊎ (h.expires_at ≡ none)
    → h.expires_at ≡ some t
    → 0 ≡ h.concurrent
idle h t (inl unused) e = sym unused
idle h t (inr forever) e = absurd (cc)

-- Time takes no permit back.
pub live-KeyOk :
    (p : QuotaPolicy) (now : ℕ) (o : Option UsageHash)
    → KeyOk p (stored o)
    → KeyOk p (live now o) × ((live now o).concurrent ≡ (stored o).concurrent)
unfolding live
live-KeyOk p now none k = (no_key-KeyOk p, refl)
live-KeyOk p now (some h) k = elim (Option-cases h.expires_at) [
  | inl forever ↦ rw forever (k, refl)
  | inr (t, e) ↦ elim (Bool-cases (leb t now)) [
    | inl over ↦ (rw (e, over) (no_key-KeyOk p), rw (e, over) (idle h t k.kept e))
    | inr lasts ↦ (rw (e, lasts) k, rw (e, lasts) refl)
  ]
]

pub record Granted (p : QuotaPolicy) (h : UsageHash) (r : Bool × UsageHash) : Type 0 where
  pub fine : KeyOk p r.1
  pub counted : (if r.0 then h.concurrent + 1 else h.concurrent) ≡ r.1.concurrent

pub set_minute-KeyOk :
    (p : QuotaPolicy) (m : ℕ) (h : UsageHash)
    → KeyOk p h
    → KeyOk p (set_minute m h) × ((set_minute m h).concurrent ≡ h.concurrent)
unfolding set_minute
set_minute-KeyOk p m h k = elim (Bool-cases (is_minute h.minute m)) [
  | inl now ↦ rw now (k, refl)
  | inr before ↦ rw before (
    record {
      requests = omega arith;
      tokens = omega arith;
      concurrent = k.concurrent;
      kept = k.kept;
    },
    refl,
  )
]

pub admit_script-Granted :
    (p : QuotaPolicy) (n now : ℕ) (h : UsageHash) → KeyOk p h → Granted p h (admit_script p n now h)
unfolding admit_script over_limits
admit_script-Granted p n now h k =
    let (m, same) = set_minute-KeyOk p (now / 60) h k in
    elim (Bool-cases (over_limits p n (set_minute (now / 60) h))) [
      | inl over ↦ rw over (record { fine = m; counted = sym same })
      | inr fits ↦ rw fits (record {
        fine = record {
          requests = ground arith;
          tokens = ground arith;
          concurrent = ground arith;
          kept = inr refl;
        };
        counted = omega (arith, same);
      })
    ]

pub give_permit-KeyOk :
    (p : QuotaPolicy) (now : ℕ) (h : UsageHash)
    → KeyOk p h
    → 0 < h.concurrent
    → KeyOk p (give_permit now h) × ((give_permit now h).concurrent ≡ h.concurrent - 1)
unfolding give_permit
give_permit-KeyOk p now h k busy = elim (Bool-cases (eqb (h.concurrent - 1) 0)) [
  | inl last ↦ rw last (
    record {
      requests = k.requests;
      tokens = k.tokens;
      concurrent = omega (arith, k.concurrent);
      kept = inl (ground arith);
    },
    refl,
  )
  | inr more ↦ rw more (
    record {
      requests = k.requests;
      tokens = k.tokens;
      concurrent = omega (arith, k.concurrent);
      kept = inr (elim k.kept [ inl unused ↦ absurd (omega arith) | inr forever ↦ forever ]);
    },
    refl,
  )
]
