-- ===== src/Result.antt =====
-- What a call ends in: a value, a thrown error, or the fuel of the model running out. `do` chains
-- calls as `await` does: an error ends the chain.
use bullmq_durable.Base.{◌≡◌, refl}
use bullmq_durable.Errors.{Thrown}

pub data Result {ℓ} (A : Type ℓ) : Type ℓ where
  ok : A → Result A
  throws : Thrown → Result A
  out_of_fuel : Result A

module _ {κ ℓ} {B : Type κ} {A : Type ℓ} where
  infixl 5 ◌>>=◌
  abbrev pub ◌>>=◌ : Result A → (A → Result B) → Result B
  out_of_fuel >>= next = out_of_fuel
  throws e >>= next = throws e
  ok value >>= next = next value

-- The fuel of the model did not run out.
abbrev pub Ends {ℓ} : {A : Type ℓ} → Result A → Type 0
Ends (ok a) = Unit
Ends (throws e) = Unit
Ends out_of_fuel = ⊥

-- Inversion of a chain that yields a value.
pub >>=-eq-ok {κ ℓ} :
    {B : Type κ} {A : Type ℓ} {end : B} (r : Result A) (next : A → Result B)
    → (r >>= next) ≡ ok end
    → (value : A) × (next value ≡ ok end) × (r ≡ ok value)
>>=-eq-ok out_of_fuel next same = cc
>>=-eq-ok (throws e) next same = cc
>>=-eq-ok (ok value) next same = (value, same, refl)
