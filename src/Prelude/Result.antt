-- ===== src/Prelude/Result.antt =====
-- Code that may raise. `no_fuel` is no Python exception: a loop of the model ran out of rounds.
use mathlib.Core.Path.{◌≡◌, refl}
use mathlib.Core.Logic.{◌⊎◌, inl, inr}
use mathlib.Core.Bool.{Bool, true, false}
use mathlib.Core.Option.{Option, none, some}

-- ValueError, WorkflowConflict or ContextConflict, KeyError, TypeError, sqlite3.IntegrityError,
-- asyncio.CancelledError, ContextAccessDenied and ContextPolicyUnavailable.
pub data Error : Type 0 where
  value_error conflict key_error type_error integrity_error cancelled_error access_denied
        policy_unavailable no_fuel :
      Error

-- A call returns a value or raises.
pub data Result {ℓ} (T : Type ℓ) : Type ℓ where
  err : Error → Result T
  ok : T → Result T

-- A check returns nothing, or raises.
abbrev pub Check : Type 0
Check = Result (Unit {0})

-- A raise ends the block.
infixl 6 ◌>>=◌
abbrev pub ◌>>=◌ {ℓ₁ ℓ₂} : {T : Type ℓ₁} {U : Type ℓ₂} → Result T → (T → Result U) → Result U
err raised >>= next = err raised
ok value >>= next = next value

infixl 6 ◌>>◌
abbrev pub ◌>>◌ {ℓ₁} : {U : Type ℓ₁} → Check → Result U → Result U
check >> next = check >>= (λ nothing. next)

-- `if test: raise e`
abbrev pub raise_if : Bool → Error → Check
raise_if true e = err e
raise_if false e = ok tt

-- The value, or a raise where there is none.
abbrev pub or_raise {ℓ} : {T : Type ℓ} → Option T → Error → Result T
or_raise none e = err e
or_raise (some value) e = ok value

-- What a block that ends well has been through.
pub bind-ok {ℓ₁ ℓ₂} :
    {T : Type ℓ₁} {U : Type ℓ₂} (call : Result T) (next : T → Result U) {result : U}
    → (call >>= next) ≡ ok result
    → (value : T) × (call ≡ ok value) × (next value ≡ ok result)
bind-ok (err raised) next ends = cc
bind-ok (ok value) next ends = (value, refl, ends)

pub or_raise-ok {ℓ} :
    {T : Type ℓ} (o : Option T) (e : Error) {value : T} → or_raise o e ≡ ok value → o ≡ some value
or_raise-ok none e h = cc
or_raise-ok (some x) e h = cc

pub raise_if-ok : (b : Bool) (e : Error) → raise_if b e ≡ ok tt → b ≡ false
raise_if-ok true e h = cc
raise_if-ok false e h = refl

pub ok_inj {ℓ} : {T : Type ℓ} {x y : T} → ok x ≡ ok y → x ≡ y
ok_inj h = cc

pub Result-cases {ℓ} :
    {T : Type ℓ} (r : Result T) → ((value : T) × (r ≡ ok value)) ⊎ ((e : Error) × (r ≡ err e))
Result-cases (ok value) = inl (value, refl)
Result-cases (err e) = inr (e, refl)
