-- ===== src/Base/Errors.antt =====
-- `err_t` of firmware/include/err.h, and a call that gives a value or an error.
use mathlib.Core.Path.{◌≡◌, refl}
use mathlib.Core.Logic.{◌⊎◌, inl, inr}
use stm32h745_disco.Base.Tests.{if◌then◌else◌}
use mathlib.Core.Bool.{Bool, true, false}

pub data Err : Type 0 where
  ok busy timeout nomem noent inval io nospc denied corrupt unsupported overflow : Err

-- `e == ERR_OK`
abbrev pub is_ok : Err → Bool
is_ok Err.ok = true
is_ok e = false

pub data Result {ℓ} (A : Type ℓ) : Type ℓ where
  value : A → Result A
  error : Err → Result A

-- `e = f(&x); if (e != ERR_OK) { return e; }`
infixl 5 ◌>>=◌
abbrev pub ◌>>=◌ {ℓ κ} : {A : Type ℓ} {B : Type κ} → Result A → (A → Result B) → Result B
value a >>= f = f a
error e >>= f = error e

pub Result-cases {ℓ} :
    {A : Type ℓ} (r : Result A) → ((a : A) × (r ≡ value a)) ⊎ ((e : Err) × (r ≡ error e))
Result-cases (value a) = inl (a, refl)
Result-cases (error e) = inr (e, refl)

pub >>=-eq-value {ℓ κ} :
    {A : Type ℓ} {B : Type κ} (m : Result A) (f : A → Result B) {b : B}
    → (m >>= f) ≡ value b
    → (a : A) × (m ≡ value a) × (f a ≡ value b)
>>=-eq-value (value a) f h = (a, refl, h)
>>=-eq-value (error e) f h = cc

-- `if (test) { return e; }`
pub guard-eq-value {ℓ} :
    {A : Type ℓ} (test : Bool) (e : Err) (x : Result A) {a : A}
    → (if test then error e else x) ≡ value a
    → (test ≡ false) × (x ≡ value a)
guard-eq-value true e x h = cc
guard-eq-value false e x h = (refl, h)
