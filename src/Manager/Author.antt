-- ===== src/Manager/Author.antt =====
-- The other entry points of src/stateManager/StateManager.ts: events of the chain, the authoring of a
-- block, and the timeout of a participant.
use state_channels_plus.Prelude.{
  ℕ, ◌+◌, ◌-◌, Bool, true, false, not, ◌&&◌, Option, none, some, [], ◌∷◌, ◌==◌, ltb, if◌then◌else◌,
  Result, ok, throw, Error,
}
use state_channels_plus.Prelude.Action.{Action, pure, raise, reads, modify, try_modify, ◌>>=◌, ◌>>◌}
use state_channels_plus.Data.{
  Bytes, Address, Transaction, Block, SignedBlock, AgreementFlag, get_fork, decode_block,
  encode_block,
}
use state_channels_plus.AgreementTypes.{AgreementState}
use state_channels_plus.Forks.{get_latest_fork_cnt, get_block, new_fork, add_block}
use state_channels_plus.OnChain.{has_posted, latest_timestamp}
use state_channels_plus.Validator.{latest_block_timestamp}
use state_channels_plus.Agreement.{did_everyone_sign_block, collect_on_chain_block as collect_block}
use state_channels_plus.Proofs.{create_double_sign_proof, create_incorrect_data_proof}
use state_channels_plus.Disputes.{start_dispute}
use state_channels_plus.Mutex.{lock}
use state_channels_plus.Manager.State.{
  Env, Effect, Waiter, ManagerState, emit, get_timeout_wait_time_seconds,
}
use state_channels_plus.Manager.Validation.{begin_dispute, is_my_turn}
use state_channels_plus.Manager.Decisions.{on_forks, on_success_common, own_signature}
use state_channels_plus.Manager.Calls.{release}

module _ {M : Type 0} (env : Env M) (now : ℕ) where
  abbrev pub lift_agreements : {A : Type 0} → Action AgreementState A → Action (ManagerState M) A
  lift_agreements m s = let (r, a) = m s.agreements in (r, record s { agreements = a })

  -- `collectOnChainBlock`: the proofs are created in the call itself, so their throws are its throws.
  abbrev pub answer_flag : SignedBlock → AgreementFlag → Block → Action (ManagerState M) (Unit {0})
  answer_flag signed AgreementFlag.double_sign b = do
    p ← reads (λ s. create_double_sign_proof env.ethers env.coder s.agreements.forks (signed ∷ []))
    begin_dispute (get_fork b) (p ∷ [])
  answer_flag signed AgreementFlag.incorrect_data b = do
    p ← reads (λ s.
        create_incorrect_data_proof env.ethers env.coder env.empty_state s.agreements.forks signed)
    begin_dispute (get_fork b) (p ∷ [])
  answer_flag signed _ b = pure tt

  unfoldable pub collect_on_chain_block : SignedBlock → ℕ → Action (ManagerState M) (Unit {0})
  collect_on_chain_block signed timestamp = do
    flag ← lift_agreements (collect_block env.ethers signed timestamp)
    b ← reads (λ s. decode_block env.ethers signed.encoded_block)
    answer_flag signed flag b
    on_success_common env

  unfoldable pub set_state : Bytes → ℕ → ℕ → Action (ManagerState M) (Unit {0})
  set_state encoded fork_cnt timestamp = do
    modify (λ s. record s { machine = env.machine.set_state encoded s.machine })
    modify (λ s. record s {
      agreements = record (s.agreements) {
        forks =
            new_fork encoded (env.machine.get_participants s.machine) fork_cnt timestamp
              s.agreements.forks;
      };
    })
    on_success_common env

  unfoldable pub adjust_timestamp : Transaction → ManagerState M → Result Transaction
  adjust_timestamp tx s =
      elim (latest_block_timestamp s.agreements.forks (get_latest_fork_cnt s.agreements.forks)) [
        | throw err ↦ throw err
        | ok latest ↦
            if ltb (tx.header.timestamp) latest
            then ok (record tx { header = record (tx.header) { timestamp = latest + 1 } })
            else ok tx
      ]

  -- `playTransaction` after its checks, on the adjusted transaction.
  unfoldable pub author_block : Transaction → Action (ManagerState M) SignedBlock
  author_block tx = do
    s ← reads ok
    let previous = env.ethers.keccak256 (env.machine.get_state s.machine)
    let (done, machine) = env.machine.state_transition tx s.machine
    let encoded = env.machine.get_state machine
    let b : Block = record {
      transaction = tx;
      state_hash = env.ethers.keccak256 encoded;
      previous_state_hash = previous;
    }
    let signed : SignedBlock = record {
      encoded_block = encode_block env.ethers b;
      signature = own_signature env b;
    }
    modify (λ s'. record s' { machine = machine })
    (if not done
        then raise {A = Unit {0}} Error.not_successful
        else try_modify (on_forks env (add_block b signed.signature encoded)))
    emit (Effect.success_callback tx)
    on_success_common env
    emit (Effect.maybe_post_block b signed)
    pure signed

  -- The body of the `try` of `playTransaction`. Its first guard, `getForkCnt() !== -1`, always holds: the
  -- fork count is `Math.max(0, …)`.
  unfoldable pub play_body : Transaction → Action (ManagerState M) SignedBlock
  unfolding adjust_timestamp author_block
  play_body tx s =
      if not (is_my_turn env now s)
      then (throw Error.not_player_turn, s)
      else elim (adjust_timestamp tx s) [ throw err ↦ (throw err, s) | ok tx' ↦ author_block tx' s ]

  -- Here the unlocking follows every outcome.
  unfoldable pub play_transaction :
      Transaction → ManagerState M → Option (Result SignedBlock) × ManagerState M
  unfolding play_body
  play_transaction tx s =
      let (acquired, m) = lock (Waiter.played tx) s.mutex in
      let s1 : ManagerState M = record s { mutex = m } in
      if not acquired then (none, s1) else let (r, s2) = play_body tx s1 in (some r, release s2)

  -- The tests of `tryTimeoutParticipant` that end it early, up to the call of the contract.
  unfoldable pub should_timeout : ℕ → ℕ → Address → ManagerState M → Result Bool
  should_timeout fork_cnt transaction_cnt participant s =
      let forks = s.agreements.forks in
      let waited : Result Bool = elim (latest_timestamp forks fork_cnt transaction_cnt) [
        | throw err ↦ throw err
        | ok latest ↦ ok (
            not (ltb now (latest + get_timeout_wait_time_seconds env.time_config))
            && not
                (env.is_block_call_data_posted s.channel_id fork_cnt transaction_cnt participant))
      ] in
      if participant == env.signer_address
      then ok false
      else elim (get_block forks fork_cnt transaction_cnt) [
        | none ↦ if has_posted forks fork_cnt transaction_cnt participant then ok false else waited
        | some b ↦ elim (did_everyone_sign_block env.ethers b forks) [
          | throw err ↦ throw err
          | ok true ↦ ok false
          | ok false ↦
              if has_posted forks fork_cnt transaction_cnt participant then ok false else waited
        ]
      ]

  -- The delay is `wait - (now - latest)`: negative when `wait + latest < now`.
  unfoldable pub try_timeout_participant : ℕ → ℕ → Address → Action (ManagerState M) (Unit {0})
  unfolding should_timeout
  try_timeout_participant fork_cnt transaction_cnt participant = do
    due ← reads (should_timeout fork_cnt transaction_cnt participant)
    (if not due then pure tt else (do
      latest ← reads (λ s. latest_block_timestamp s.agreements.forks fork_cnt)
      let deadline = get_timeout_wait_time_seconds env.time_config + latest
      if ltb deadline now
          then (do
            modify (λ s. record s { disputes = start_dispute fork_cnt [] s.disputes })
            emit (Effect.finish_dispute fork_cnt participant transaction_cnt []))
          else emit (Effect.dispute_later (deadline - now) fork_cnt participant transaction_cnt)))
