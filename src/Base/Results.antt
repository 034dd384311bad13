-- ===== src/Base/Results.antt =====
-- A Go result `(value, error)`: the value, or the message of the error.
use mathlib.Core.Path.{◌≡◌, refl}
use fact_checker.Base.Text.{Str}

pub data Result {ℓ} (T : Type ℓ) : Type ℓ where
  ok : T → Result T
  err : Str → Result T

infixl 5 ◌>>=◌
abbrev pub ◌>>=◌ {ℓ κ} : {T : Type ℓ} {U : Type κ} → Result T → (T → Result U) → Result U
err message >>= next = err message
ok value >>= next = next value

-- A chain that succeeds has succeeded at its first step.
pub >>=-eq-ok {ℓ κ} :
    {T : Type ℓ} {U : Type κ} (first : Result T) (next : T → Result U) {end : U}
    → (first >>= next) ≡ ok end
    → (value : T) × (first ≡ ok value) × (next value ≡ ok end)
>>=-eq-ok (err message) next succeeds = cc
>>=-eq-ok (ok value) next succeeds = (value, refl, succeeds)
