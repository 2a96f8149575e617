-- ===== src/Manager/Kept.antt =====
-- What the steps of `onSignedBlock` keep of the agreements.
use state_channels_plus.Prelude.{
  ℕ, ◌≡◌, ◌≢◌, ◌⊎◌, refl, inl, inr, not, ◌&&◌, ◌||◌, Option, none, some, ◌==◌, Result, ok, arith,
  Bool-cases, Result-cases,
}
use state_channels_plus.Data.{Block, SignedBlock, ExecutionFlag, AgreementFlag, decode_block}
use state_channels_plus.AgreementTypes.{Forks}
use state_channels_plus.Forks.{add_block}
use state_channels_plus.Agreement.{confirm_block}
use state_channels_plus.Manager.State.{Env, ManagerState, ValidationResult, succeeded}
use state_channels_plus.Manager.Validation.{
  is_enough_time_subjective, process_state_transition, validate_producer, validate_next,
  validate_past, validate_place, validate_signed_block,
}
use state_channels_plus.Manager.Decisions.{
  on_success_common, confirm_own, own_signature, dispute_double_sign, dispute_incorrect_data,
  process_execution_decision,
}
use state_channels_plus.Manager.Calls.{finish_signed_block}

module _ {M : Type 0} (env : Env M) (now : ℕ) where
  -- A validation that does not end in SUCCESS leaves the agreements alone.
  abbrev pub Kept : Result ValidationResult × ManagerState M → ManagerState M → Type 0
  Kept p s =
      (p.1.agreements ≡ s.agreements)
      ⊎ (v : ValidationResult) × (p.0 ≡ ok v) × (v.flag ≡ ExecutionFlag.success)

  process_state_transition-Kept :
      (b : Block) (signed : SignedBlock) (s : ManagerState M)
      → Kept (process_state_transition env now b signed s) s
  unfolding process_state_transition
  process_state_transition-Kept b signed s =
      let after = env.machine.state_transition b.transaction s.machine in
      let encoded = env.machine.get_state after.1 in
      let hash_ok =
        env.ethers.keccak256 encoded == b.state_hash
        && env.ethers.keccak256 (env.machine.get_state s.machine) == b.previous_state_hash in
      elim (Bool-cases (not after.0 || not hash_ok)) [
        | inl rejected ↦ inl (ground arith)
        | inr correct ↦
            elim (Result-cases (add_block b signed.signature encoded s.agreements.forks)) [
              | inr (err, thrown) ↦ inl (ground arith)
              | inl (forks, added) ↦ inr (succeeded, ground arith, refl)
            ]
      ]

  time-agreements :
      (b : Block) (signed : SignedBlock) (s : ManagerState M)
      → (is_enough_time_subjective env now signed b s).1.agreements ≡ s.agreements
  unfolding is_enough_time_subjective
  time-agreements b signed s = ground arith

  validate_next-Kept :
      (b : Block) (signed : SignedBlock) (s : ManagerState M)
      → Kept (validate_next env now b signed s) s
  unfolding validate_next validate_producer
  validate_next-Kept b signed s =
      let t = is_enough_time_subjective env now signed b s in
      ground (arith, time-agreements b signed s, process_state_transition-Kept b signed t.1)

  validate_past-unchanged :
      (signed : SignedBlock) (s : ManagerState M)
      → (validate_past env now signed s).1.agreements ≡ s.agreements
  unfolding validate_past
  validate_past-unchanged signed s = ground arith

  pub validate_signed_block-Kept :
      (signed : SignedBlock) (b : Block) (s : ManagerState M)
      → Kept (validate_signed_block env now signed b s) s
  unfolding validate_signed_block validate_place
  validate_signed_block-Kept signed b s =
      ground (arith, validate_past-unchanged signed s, validate_next-Kept b signed s)

  -- The own confirmation after a SUCCESS either throws and changes no agreement, or is the one
  -- `confirmBlock` makes.
  pub confirm_own-forks :
      (signed : SignedBlock) (s : ManagerState M)
      → ((confirm_own env signed s).1.agreements ≡ s.agreements)
        ⊎ (b : Block) × (forks : Forks) × (decode_block env.ethers signed.encoded_block ≡ ok b)
          × (confirm_block env.ethers b (own_signature env b) s.agreements.forks ≡ ok forks)
          × ((confirm_own env signed s).1.agreements ≡ record (s.agreements) { forks = forks })
          × ((confirm_own env signed s).0 ≡ ok tt)
  unfolding confirm_own
  confirm_own-forks signed s = elim (Result-cases (decode_block env.ethers signed.encoded_block)) [
    | inr (err, thrown) ↦ inl (ground arith)
    | inl (b, decoded) ↦
        elim (Result-cases (confirm_block env.ethers b (own_signature env b) s.agreements.forks)) [
          | inr (err, thrown) ↦ inl (ground arith)
          | inl (forks, done) ↦ inr (b, forks, decoded, done, ground arith, ground arith)
        ]
  ]

  pub success-agreements :
      (signed : SignedBlock) (af : Option AgreementFlag) (s : ManagerState M)
      → (process_execution_decision env signed ExecutionFlag.success af s).1.agreements
        ≡ (confirm_own env signed s).1.agreements
  unfolding process_execution_decision on_success_common
  success-agreements signed af s = ground arith

  pub other_decision-forks :
      (signed : SignedBlock) (flag : ExecutionFlag) (af : Option AgreementFlag) (s : ManagerState M)
      → flag ≢ ExecutionFlag.success
      → (process_execution_decision env signed flag af s).1.agreements.forks ≡ s.agreements.forks
  unfolding process_execution_decision dispute_double_sign dispute_incorrect_data
  other_decision-forks signed ExecutionFlag.success af s n = absurd (n refl)
  other_decision-forks signed ExecutionFlag.not_ready af s n = ground arith
  other_decision-forks signed ExecutionFlag.dispute none s n = refl
  other_decision-forks signed ExecutionFlag.dispute (some AgreementFlag.double_sign) s n =
      ground arith
  other_decision-forks signed ExecutionFlag.dispute (some AgreementFlag.incorrect_data) s n =
      ground arith
  other_decision-forks signed ExecutionFlag.dispute (some _) s n = refl
  other_decision-forks signed _ af s n = refl

  pub finish_signed_block-forks :
      (signed : SignedBlock) (v : ValidationResult) (r : Result ExecutionFlag) (s : ManagerState M)
      → (finish_signed_block env now signed v r s).1.agreements.forks
        ≡ (process_execution_decision env signed v.flag v.agreement_flag s).1.agreements.forks
  finish_signed_block-forks signed v r s = ground arith
