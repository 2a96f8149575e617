-- ===== src/Manager/Validation.antt =====
-- src/stateManager/ValidationService.ts: `validateSignedBlock` and its helpers.
use state_channels_plus.Prelude.{
  ℕ, ◌+◌, max, Bool, true, false, not, ◌&&◌, ◌||◌, List, [], ◌∷◌, ◌==◌, ltb, leb, if◌then◌else◌,
  Result, ok, throw, Error,
}
use state_channels_plus.Prelude.Action.{Action, pure, modify, ◌>>=◌, ◌>>◌}
use state_channels_plus.Data.{
  Bytes, Block, SignedBlock, ExecutionFlag, AgreementFlag, get_fork, get_height, get_timestamp,
  get_block_author, get_channel_id, signed_by,
}
use state_channels_plus.AgreementTypes.{Forks}
use state_channels_plus.Forks.{get_latest_fork_cnt, get_next_block_height, add_block}
use state_channels_plus.Validator.{
  check, is_block_duplicate, latest_block_timestamp, latest_relevant_timestamp,
}
use state_channels_plus.Agreement.{is_participant_in_latest_fork}
use state_channels_plus.Proofs.{Proof, create_block_too_far_in_future_proof}
use state_channels_plus.Disputes.{is_fork_disputed, start_dispute}
use state_channels_plus.Manager.State.{
  Env, Effect, ManagerState, ValidationResult, succeeded, failed, disputed, emit, no_participant,
  subjective_timing_flag,
}

-- `getForkCnt() >= 0`
abbrev pub is_channel_open : Forks → Bool
is_channel_open forks = leb 0 (get_latest_fork_cnt forks)

abbrev pub is_past_fork : ℕ → Forks → Bool
is_past_fork fork_cnt forks = ltb fork_cnt (get_latest_fork_cnt forks)

-- The part of `DisputeHandler.createDispute` that runs before its first wait; the rest is an effect.
abbrev pub begin_dispute : {M : Type 0} → ℕ → List Proof → Action (ManagerState M) (Unit {0})
begin_dispute fork_cnt proofs = do
  modify (λ s. record s { disputes = start_dispute fork_cnt proofs s.disputes })
  emit (Effect.finish_dispute fork_cnt no_participant 0 proofs)

module _ {M : Type 0} (env : Env M) (now : ℕ) where
  abbrev pub is_my_turn : ManagerState M → Bool
  is_my_turn s = env.machine.get_next_to_write s.machine == env.signer_address

  unfoldable pub is_signed_block_authentic : SignedBlock → Block → Bytes → Result Bool
  is_signed_block_authentic signed b expected_channel_id =
      if not (get_channel_id b == expected_channel_id)
      then ok false
      else elim (signed_by env.ethers signed.encoded_block signed.signature) [
        | throw err ↦ throw err
        | ok signer ↦ ok (signer == get_block_author b)
      ]

  -- The second half of `isGoodTimestamp`, over the reference time.
  abbrev pub is_near : Block → Bytes → ℕ → Bool
  is_near b channel_id reference =
      if ltb (reference + env.time_config.p2p_time) (get_timestamp b)
      then not (
          ltb
            (max reference
                (env.get_chain_latest_block_timestamp channel_id (get_fork b) (get_height b))
              + env.time_config.p2p_time)
            (get_timestamp b))
      else true

  unfoldable pub is_good_timestamp : Block → Bytes → Forks → Result Bool
  is_good_timestamp b channel_id forks = elim (latest_block_timestamp forks (get_fork b)) [
    | throw err ↦ throw err
    | ok latest ↦ elim (latest_relevant_timestamp forks (get_fork b) (get_height b)) [
      | throw err ↦ throw err
      | ok reference ↦
          if ltb (get_timestamp b) latest
          then throw Error.not_implemented
          else ok (is_near b channel_id reference)
    ]
  ]

  unfoldable pub is_enough_time_subjective :
      SignedBlock → Block → Action (ManagerState M) ExecutionFlag
  is_enough_time_subjective signed b s =
      if not (is_my_turn s)
      then (ok ExecutionFlag.success, s)
      else elim (subjective_timing_flag (get_timestamp b) now) [
        | ExecutionFlag.dispute ↦
            (do
              begin_dispute (get_latest_fork_cnt s.agreements.forks)
                  (create_block_too_far_in_future_proof env.ethers env.coder signed ∷ [])
              pure ExecutionFlag.dispute)
              s
        | flag ↦ (ok flag, s)
      ]

  -- `stateTransition` has changed the machine before the hashes are compared.
  unfoldable pub process_state_transition :
      Block → SignedBlock → Action (ManagerState M) ValidationResult
  process_state_transition b signed s =
      let previous = env.ethers.keccak256 (env.machine.get_state s.machine) in
      let (tx_ok, machine) = env.machine.state_transition b.transaction s.machine in
      let encoded = env.machine.get_state machine in
      let hash_ok =
        env.ethers.keccak256 encoded == b.state_hash && previous == b.previous_state_hash in
      let s1 : ManagerState M = record s { machine = machine } in
      if not tx_ok || not hash_ok
      then (ok (disputed AgreementFlag.incorrect_data), s1)
      else elim (add_block b signed.signature encoded s.agreements.forks) [
        | throw err ↦ (throw err, s1)
        | ok forks ↦
            (do emit (Effect.success_callback b.transaction); pure succeeded)
              (record s1 { agreements = record (s.agreements) { forks = forks } })
      ]

  unfoldable pub validate_producer : Block → SignedBlock → Action (ManagerState M) ValidationResult
  unfolding process_state_transition
  validate_producer b signed s =
      if not (get_block_author b == env.machine.get_next_to_write s.machine)
      then (ok (disputed AgreementFlag.incorrect_data), s)
      else process_state_transition b signed s

  -- A block at the next height: the timestamps, the producer, the transition.
  unfoldable pub validate_next : Block → SignedBlock → Action (ManagerState M) ValidationResult
  unfolding is_enough_time_subjective validate_producer
  validate_next b signed s = elim (is_good_timestamp b s.channel_id s.agreements.forks) [
    | throw err ↦ (throw err, s)
    | ok good ↦
        if not good
        then (ok (disputed AgreementFlag.incorrect_data), s)
        else (do
          time ← is_enough_time_subjective signed b
          elim time [
            | ExecutionFlag.success ↦ validate_producer b signed
            | flag ↦ pure (failed flag)
          ])
            s
  ]

  -- A block below the next height of the current fork.
  unfoldable pub validate_past : SignedBlock → Action (ManagerState M) ValidationResult
  validate_past signed s = elim (check env.ethers s.agreements signed) [
    | throw err ↦ (throw err, s)
    | ok AgreementFlag.double_sign ↦ (ok (disputed AgreementFlag.double_sign), s)
    | ok AgreementFlag.incorrect_data ↦ (ok (disputed AgreementFlag.incorrect_data), s)
    | ok _ ↦ (throw Error.past_block_internal, s)
  ]

  -- The guards after the signature check, in the order of the code.
  unfoldable pub validate_place : Block → SignedBlock → Action (ManagerState M) ValidationResult
  unfolding validate_next validate_past
  validate_place b signed s =
      let forks = s.agreements.forks in
      if is_past_fork (get_fork b) forks || is_fork_disputed (get_fork b) s.disputes
      then (ok (failed ExecutionFlag.past_fork), s)
      else if is_block_duplicate env.ethers s.agreements b
      then (ok (failed ExecutionFlag.duplicate), s)
      else if ltb (get_latest_fork_cnt forks) (get_fork b)
          || ltb (get_next_block_height forks) (get_height b)
      then (ok (failed ExecutionFlag.not_ready), s)
      else if not (is_participant_in_latest_fork forks (get_block_author b))
      then (ok (failed ExecutionFlag.disconnect), s)
      else if ltb (get_height b) (get_next_block_height forks)
      then validate_past signed s
      else validate_next b signed s

  unfoldable pub validate_signed_block :
      SignedBlock → Block → Action (ManagerState M) ValidationResult
  unfolding validate_place
  validate_signed_block signed b s =
      if not (is_channel_open s.agreements.forks)
      then (ok (failed ExecutionFlag.not_ready), s)
      else elim (is_signed_block_authentic signed b s.channel_id) [
        | throw err ↦ (throw err, s)
        | ok authentic ↦
            if not authentic
            then (ok (failed ExecutionFlag.disconnect), s)
            else validate_place b signed s
      ]
