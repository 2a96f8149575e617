-- ===== src/Manager/Decisions.antt =====
-- What follows a verdict: processExecutionDecisionHandlers.ts, processConfirmationDecisionHandlers.ts,
-- and `onSuccessCommon` of StateManager.ts.
use state_channels_plus.Prelude.{ℕ, Option, none, some, [], ◌∷◌, Result, ok, throw, Error}
use state_channels_plus.Prelude.Action.{Action, pure, raise, reads, try_modify, ◌>>=◌, ◌>>◌}
use state_channels_plus.Data.{
  Signature, Block, SignedBlock, ExecutionFlag, AgreementFlag, get_fork, decode_block, encode_block,
}
use state_channels_plus.AgreementTypes.{Forks, AgreementState}
use state_channels_plus.Forks.{get_latest_fork_cnt, get_next_block_height}
use state_channels_plus.OnChain.{with_forks, queue_block_in}
use state_channels_plus.Agreement.{confirm_block}
use state_channels_plus.Proofs.{Proof, create_double_sign_proof, create_incorrect_data_proof}
use state_channels_plus.Manager.State.{
  Env, Effect, ManagerState, emit, get_timeout_wait_time_seconds,
}
use state_channels_plus.Manager.Validation.{begin_dispute}

module _ {M : Type 0} (env : Env M) where
  abbrev pub on_agreements :
      (AgreementState → Result AgreementState) → ManagerState M → Result (ManagerState M)
  on_agreements f s = elim (f s.agreements) [
    | ok a ↦ ok (record s { agreements = a })
    | throw err ↦ throw err
  ]

  abbrev pub on_forks : (Forks → Result Forks) → ManagerState M → Result (ManagerState M)
  on_forks f = on_agreements (λ a. with_forks a (f a.forks))

  unfoldable pub on_success_common : Action (ManagerState M) (Unit {0})
  on_success_common = do
    emit Effect.process_queues
    s ← reads ok
    let next = env.machine.get_next_to_write s.machine
    emit (Effect.on_turn next)
    emit (
        Effect.check_timeout (get_timeout_wait_time_seconds env.time_config)
          (get_latest_fork_cnt s.agreements.forks) (get_next_block_height s.agreements.forks) next)

  -- `EvmUtils.signBlock`: the signature of the hash of the encoding.
  abbrev pub own_signature : Block → Signature
  own_signature b = env.sign_message (env.ethers.keccak256 (encode_block env.ethers b))

  -- `P2pSigner.confirmBlock` (src/evm/P2pSigner.ts).
  unfoldable pub confirm_own : SignedBlock → Action (ManagerState M) (Unit {0})
  confirm_own signed = do
    b ← reads (λ s. decode_block env.ethers signed.encoded_block)
    try_modify (on_forks (confirm_block env.ethers b (own_signature b)))
    emit (Effect.broadcast_confirmation signed (own_signature b))

  -- The start of a dispute in a promise that nobody awaits: a throw before the first wait becomes an
  -- unhandled rejection, and the caller goes on.
  abbrev pub detached : Result (ℕ × Proof) → Action (ManagerState M) (Unit {0})
  detached (ok (fork_cnt, p)) = begin_dispute fork_cnt (p ∷ [])
  detached (throw err) = emit (Effect.unhandled_rejection err)

  abbrev pub with_fork_of : Result Proof → Result Block → Result (ℕ × Proof)
  with_fork_of (throw err) b = throw err
  with_fork_of (ok p) (throw err) = throw err
  with_fork_of (ok p) (ok b) = ok (get_fork b, p)

  -- `DisputeHandler.disputeDoubleSign([signedBlock])`
  unfoldable pub dispute_double_sign : SignedBlock → Action (ManagerState M) (Unit {0})
  dispute_double_sign signed s =
      detached
        (with_fork_of
          (create_double_sign_proof env.ethers env.coder s.agreements.forks (signed ∷ []))
          (decode_block env.ethers signed.encoded_block))
        s

  -- `DisputeHandler.disputeIncorrectData(signedBlock)`
  unfoldable pub dispute_incorrect_data : SignedBlock → Action (ManagerState M) (Unit {0})
  dispute_incorrect_data signed s =
      detached
        (with_fork_of
          (create_incorrect_data_proof env.ethers env.coder env.empty_state s.agreements.forks
            signed)
          (decode_block env.ethers signed.encoded_block))
        s

  -- `executionDecisionHandlers`, with the nested `disputeHandlers`.
  unfoldable pub process_execution_decision :
      SignedBlock → ExecutionFlag → Option AgreementFlag → Action (ManagerState M) (Unit {0})
  unfolding confirm_own on_success_common dispute_double_sign dispute_incorrect_data
  process_execution_decision signed ExecutionFlag.success af = do
    confirm_own signed
    on_success_common
  process_execution_decision signed ExecutionFlag.not_ready af =
      try_modify (on_agreements (queue_block_in env.ethers signed))
  process_execution_decision signed ExecutionFlag.dispute none = raise Error.no_agreement_flag
  process_execution_decision signed ExecutionFlag.dispute (some AgreementFlag.double_sign) =
      dispute_double_sign signed
  process_execution_decision signed ExecutionFlag.dispute (some AgreementFlag.incorrect_data) =
      dispute_incorrect_data signed
  process_execution_decision signed ExecutionFlag.dispute (some _) = raise Error.no_dispute_handler
  process_execution_decision signed _ af = pure tt

  -- `confirmationDecisionHandlers`. `StateManager` binds `queueConfirmation` of the agreement manager
  -- to itself: `this.queueService` is undefined there, and the call throws.
  unfoldable pub process_confirmation_decision : ExecutionFlag → Action (ManagerState M) (Unit {0})
  process_confirmation_decision ExecutionFlag.success = emit Effect.confirm_from_queue
  process_confirmation_decision ExecutionFlag.not_ready = raise Error.type_error
  process_confirmation_decision _ = pure tt
