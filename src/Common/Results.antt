-- ===== src/Common/Results.antt =====
-- Go's results: a value, an error, or a panic (a failed index, a nil dereference, `panic`).
use mathlib.Core.Path.{◌≡◌, refl}
use mathlib.Core.Option.{Option, none, some}
use mathlib.Core.Logic.{◌⊎◌, inl, inr}

pub data Error : Type 0 where
  -- encoding/hex: an odd length, or a byte that is no digit
  invalid_hex : Error
  odd_length not_divisible_by_8 : Error
  no_healthy_node : Error
  chain_not_found : Error
  malformed_request invalid_parameters not_enough_addresses invalid_address not_sent : Error
  template_not_set invalid_miner_address invalid_share node_rejection : Error
  invalid_number out_of_range too_short not_even : Error
  database_error payout_overflow no_update no_chain_rpc no_confirmation no_payout_config : Error
  confirmation_mismatch no_blockchain_node unknown_method : Error
  template_is_null generate_work_first generate_header_first missing_blockchain : Error

pub data Result {ℓ} (A : Type ℓ) : Type ℓ where
  panic : Result A
  err : Error → Result A
  ok : A → Result A

-- What follows an error or a panic is not run.
infixl 5 ◌>>=◌
abbrev pub ◌>>=◌ {κ ℓ} : {B : Type κ} {A : Type ℓ} → Result B → (B → Result A) → Result A
panic >>= then_do = panic
err cause >>= then_do = err cause
ok value >>= then_do = then_do value

-- An index out of range panics.
abbrev pub or_panic {ℓ} : {A : Type ℓ} → Option A → Result A
or_panic none = panic
or_panic (some a) = ok a

-- A check that ends in an error.
abbrev pub or_error {ℓ} : {A : Type ℓ} → Option A → Error → Result A
or_error none e = err e
or_error (some a) e = ok a

-- A chain that succeeds has succeeded at its first step.
pub >>=-eq-ok {κ ℓ} :
    {B : Type κ} {A : Type ℓ} {result : A} (first : Result B) (then_do : B → Result A)
    → (first >>= then_do) ≡ ok result
    → (value : B) × (first ≡ ok value) × (then_do value ≡ ok result)
>>=-eq-ok panic then_do p = cc
>>=-eq-ok (err cause) then_do p = cc
>>=-eq-ok (ok value) then_do p = (value, refl, p)

-- To split on a computed result and keep the equation.
pub Result-cases {ℓ} :
    {A : Type ℓ} (r : Result A)
    → ((value : A) × (r ≡ ok value)) ⊎ (((cause : Error) × (r ≡ err cause)) ⊎ (r ≡ panic))
Result-cases (ok value) = inl (value, refl)
Result-cases (err cause) = inr (inl (cause, refl))
Result-cases panic = inr (inr refl)
