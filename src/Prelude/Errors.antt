-- ===== src/Prelude/Errors.antt =====
-- Rust's `Result`, for any type of error, with the `?` operator as a bind.
use mathlib.Core.Path.{◌≡◌, refl}
use mathlib.Core.Option.{Option, none, some}

-- Rust's order of the parameters is the other way round.
pub data Result {ℓ} (Failure Value : Type ℓ) : Type ℓ where
  ok : Value → Result Failure Value
  err : Failure → Result Failure Value

abbrev pub ok_or {ℓ} : {Failure Value : Type ℓ} → Option Value → Failure → Result Failure Value
ok_or (some value) failure = ok value
ok_or none failure = err failure

abbrev pub map_err {ℓ} : {F G Value : Type ℓ} → (F → G) → Result F Value → Result G Value
map_err convert (ok value) = ok value
map_err convert (err failure) = err (convert failure)

-- `?`: the rest of the function runs on the value, and a failure is returned.
infixl 5 ◌>>=◌
abbrev pub ◌>>=◌ {ℓ} :
    {Failure S T : Type ℓ} → Result Failure S → (S → Result Failure T) → Result Failure T
err failure >>= rest = err failure
ok value >>= rest = rest value

-- What a chain that succeeds went through.
pub >>=-eq-ok {ℓ} :
    {Failure S T : Type ℓ} (first : Result Failure S) (rest : S → Result Failure T) {t : T}
    → (first >>= rest) ≡ ok t
    → (s : S) × (first ≡ ok s) × (rest s ≡ ok t)
>>=-eq-ok (err failure) rest h = cc
>>=-eq-ok (ok value) rest h = (value, refl, h)

pub ok_injective {ℓ} :
    {Failure S : Type ℓ} {s t : S} → ◌≡◌ {A = Result Failure S} (ok s) (ok t) → s ≡ t
ok_injective h = cc
