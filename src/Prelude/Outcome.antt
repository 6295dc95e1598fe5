-- ===== src/Prelude/Outcome.antt =====
-- Rust's `Result<A, E>`, whose `?` is the bind of a `do` block.
use mathlib.Core.Logic.{◌⊎◌, inl, inr}
use mathlib.Core.Path.{◌≡◌, refl}

pub data Result {ℓ} (E A : Type ℓ) : Type ℓ where
  err : E → Result E A
  ok : A → Result E A

abbrev pub and_then {ℓ} : {E A B : Type ℓ} → (A → Result E B) → Result E A → Result E B
and_then next (err failure) = err failure
and_then next (ok value) = next value

infixl 5 ◌>>=◌ ◌>>◌
abbrev pub ◌>>=◌ {ℓ} : {E A B : Type ℓ} → Result E A → (A → Result E B) → Result E B
first >>= next = and_then next first

abbrev pub ◌>>◌ {ℓ} : {E A B : Type ℓ} → Result E A → Result E B → Result E B
first >> second = and_then (λ value. second) first

-- `map_err`, which `?` applies through `From`.
abbrev pub map_err {ℓ} : {E F A : Type ℓ} → (E → F) → Result E A → Result F A
map_err convert (err failure) = err (convert failure)
map_err convert (ok value) = ok value

pub Result-cases {ℓ} :
    {E A : Type ℓ} (r : Result E A) → ((a : A) × (r ≡ ok a)) ⊎ ((e : E) × (r ≡ err e))
Result-cases (err failure) = inr (failure, refl)
Result-cases (ok value) = inl (value, refl)

-- A chain that is `Ok` was so at its first step.
pub >>=-eq-ok {ℓ} :
    {E A B : Type ℓ} (first : Result E A) (next : A → Result E B) {last : B}
    → and_then next first ≡ ok last
    → (value : A) × (first ≡ ok value) × (next value ≡ ok last)
>>=-eq-ok (err failure) next same = cc
>>=-eq-ok (ok value) next same = (value, refl, same)
