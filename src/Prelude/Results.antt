-- ===== src/Prelude/Results.antt =====
-- Exceptions as values: one constructor for each `throw` of the code, and for the throws of the
-- decoding and signature routines of ethers.
use mathlib.Core.Path.{◌≡◌, refl}
use mathlib.Core.Logic.{◌⊎◌, inl, inr}
use mathlib.Core.Option.{Option, none, some}

pub data Error : Type 0 where
  bad_encoding bad_signature : Error
  fork_cnt_not_correct double_sign_or_incorrect_data invalid_fork_count : Error
  confirm_no_block confirm_conflict already_confirmed signature_conflict : Error
  fork_not_found : Error
  prior_block_not_found prior_signature_not_found prior_state_not_found : Error
  not_implemented past_block_internal : Error
  channel_not_open not_player_turn not_successful : Error
  no_agreement_flag no_dispute_handler : Error
  type_error unknown_proof_type no_dispute_created challenge_failed create_failed : Error

pub data Result {ℓ} (A : Type ℓ) : Type ℓ where
  ok : A → Result A
  throw : Error → Result A

-- `x ?? throw e`
abbrev pub or_throw {ℓ} : {A : Type ℓ} → Option A → Error → Result A
or_throw none e = throw e
or_throw (some a) e = ok a

-- The next step runs on the value of the first, unless that throws.
infixl 5 ◌>>=◌
abbrev pub ◌>>=◌ {ℓ κ} : {T : Type ℓ} {U : Type κ} → Result T → (T → Result U) → Result U
throw err >>= step = throw err
ok x >>= step = step x

pub Result-cases {ℓ} :
    {T : Type ℓ} (r : Result T) → ((x : T) × (r ≡ ok x)) ⊎ ((err : Error) × (r ≡ throw err))
Result-cases (ok x) = inl (x, refl)
Result-cases (throw err) = inr (err, refl)

-- A chain that succeeds has run both of its steps.
pub >>=-eq-ok {ℓ κ} :
    {T : Type ℓ} {U : Type κ} (first : Result T) (step : T → Result U) {y : U}
    → first >>= step ≡ ok y
    → (x : T) × (first ≡ ok x) × (step x ≡ ok y)
>>=-eq-ok (throw err) step h = cc
>>=-eq-ok (ok x) step h = (x, refl, h)
