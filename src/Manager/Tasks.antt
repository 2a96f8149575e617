-- ===== src/Manager/Tasks.antt =====
-- What `StateManager` does later or on events of the chain (the queues, the calldata post, the dispute
-- updates), and the calls that reach it from peers and from the application: StateTransitionService.ts and
-- P2pSigner.ts.
pub mod Changes
use state_channels_plus.Prelude.{
  ℕ, true, false, not, Option, none, some, List, [], ◌∷◌, if◌then◌else◌, Result, ok, throw,
}
use state_channels_plus.Prelude.Action.{Action, pure, reads, modify, ◌>>=◌, ◌>>◌}
use state_channels_plus.Data.{
  Bytes, Signature, Transaction, Block, SignedBlock, ExecutionFlag, decode_block,
}
use state_channels_plus.AgreementTypes.{BlockConfirmation}
use state_channels_plus.Forks.{get_latest_fork_cnt, get_next_block_height}
use state_channels_plus.Queues.{try_dequeue}
use state_channels_plus.Agreement.{did_everyone_sign_block}
use state_channels_plus.Proofs.{Proof, Dispute, to_number}
use state_channels_plus.Disputes.{
  HandlerState, set_fork_disputed, update_dispute_if_newer, extract_proofs,
}
use state_channels_plus.Manager.State.{Env, Effect, ManagerState, emit}
use state_channels_plus.Manager.Calls.{release, on_signed_block, on_block_confirmation}
use state_channels_plus.Manager.Author.{play_body, play_transaction}

-- A call that has ended, or waits for the mutex.
abbrev pub Call : Type 0 → Type 0 → Type 0
Call M A = ManagerState M → Option (Result A) × ManagerState M

-- What follows a call that has ended without a throw.
abbrev pub after : {M A B : Type 0} → Call M A → (A → Call M B) → Call M B
after call k s =
    let (r, s') = call s in
    elim r [ none ↦ (none, s') | some (throw err) ↦ (some (throw err), s') | some (ok a) ↦ k a s' ]

abbrev pub ended : {M A : Type 0} → A → Call M A
ended a s = (some (ok a), s)

abbrev pub finishes : {M A : Type 0} → Action (ManagerState M) A → Call M A
finishes action s = let (r, s') = action s in (some r, s')

-- `if (flag == ExecutionFlags.SUCCESS) … .broadcast()`
abbrev pub pass_on : {M : Type 0} → Effect → ExecutionFlag → Call M (Unit {0})
pass_on x ExecutionFlag.success = finishes (emit x)
pass_on x _ = ended tt

module _ {M : Type 0} (env : Env M) (now : ℕ) where
  -- `onSignedBlock(signedBlock)`, which decodes the block before its `try`.
  unfoldable pub on_encoded_block : SignedBlock → Call M ExecutionFlag
  on_encoded_block signed s = elim (decode_block env.ethers signed.encoded_block) [
    | throw err ↦ (some (throw err), s)
    | ok b ↦ on_signed_block env now signed b s
  ]

  -- `onBlockConfirmation(signedBlock, confirmationSignature)`
  unfoldable pub on_encoded_confirmation : SignedBlock → Signature → Call M ExecutionFlag
  on_encoded_confirmation signed x s = elim (decode_block env.ethers signed.encoded_block) [
    | throw err ↦ (some (throw err), s)
    | ok b ↦ on_block_confirmation env now signed x b s
  ]

  -- The loops over what was dequeued: a DISPUTE ends them.
  unfoldable pub execute_all : List SignedBlock → Call M (Unit {0})
  execute_all [] s = ended tt s
  execute_all (signed ∷ rest) s =
      let (r, s') = on_encoded_block signed s in
      elim r [
        | none ↦ (none, s')
        | some (throw err) ↦ (some (throw err), s')
        | some (ok ExecutionFlag.dispute) ↦ ended tt s'
        | some (ok _) ↦ execute_all rest s'
      ]

  unfoldable pub confirm_all : List BlockConfirmation → Call M (Unit {0})
  confirm_all [] s = ended tt s
  confirm_all (c ∷ rest) s =
      let (r, s') = on_encoded_confirmation c.original_signed_block c.confirmation_signature s in
      elim r [
        | none ↦ (none, s')
        | some (throw err) ↦ (some (throw err), s')
        | some (ok ExecutionFlag.dispute) ↦ ended tt s'
        | some (ok _) ↦ confirm_all rest s'
      ]

  unfoldable pub try_execute_from_queue : Call M (Unit {0})
  unfolding execute_all
  try_execute_from_queue s =
      let forks = s.agreements.forks in
      let (blocks, q) =
        try_dequeue (get_latest_fork_cnt forks) (get_next_block_height forks)
          s.agreements.block_q in
      execute_all blocks (record s { agreements = record (s.agreements) { block_q = q } })

  unfoldable pub try_confirm_from_queue : Call M (Unit {0})
  unfolding confirm_all
  try_confirm_from_queue s =
      let forks = s.agreements.forks in
      let (confirmations, q) =
        try_dequeue (get_latest_fork_cnt forks) (get_next_block_height forks) s.agreements.conf_q in
      confirm_all confirmations (record s { agreements = record (s.agreements) { conf_q = q } })

  unfoldable pub maybe_post_block_on_chain :
      Block → SignedBlock → Action (ManagerState M) (Unit {0})
  maybe_post_block_on_chain b signed = do
    everyone ← reads (λ s. did_everyone_sign_block env.ethers b s.agreements.forks)
    if not everyone then emit (Effect.post_calldata signed) else pure tt

  -- What `rechallengeRecursive` finds to answer a dispute with, up to its first wait.
  abbrev pub answer_with : Dispute → Result (List Proof) → Action (ManagerState M) (Unit {0})
  answer_with dispute (throw err) = emit (Effect.unhandled_rejection err)
  answer_with dispute (ok []) = pure tt
  answer_with dispute (ok (p ∷ ps)) = emit (Effect.challenge dispute (p ∷ ps))

  unfoldable pub begin_answer : Dispute → Action (ManagerState M) (Unit {0})
  begin_answer dispute s =
      let (newer, d) =
        update_dispute_if_newer dispute
          (set_fork_disputed (to_number dispute.fork_cnt) s.disputes) in
      let h : HandlerState (Unit {0}) = record {
        handler = d;
        forks = s.agreements.forks;
        chain = tt;
      } in
      let (r, h') = extract_proofs env.ethers env.coder now dispute h in
      if not newer
      then (ok tt, record s { disputes = d })
      else answer_with dispute r (record s { disputes = h'.handler })

  -- Nobody awaits the promise of `onDispute`.
  unfoldable pub on_dispute_update : Dispute → Action (ManagerState M) (Unit {0})
  unfolding begin_answer
  on_dispute_update dispute s = emit (Effect.dispute_hook dispute) (begin_answer dispute s).1

  unfoldable pub set_channel_id : Bytes → ManagerState M → ManagerState M
  set_channel_id channel_id s = record s { channel_id = channel_id }

  -- `P2pSigner.sendTransaction`: the place in the chain is read before the call that waits for the mutex.
  unfoldable pub new_transaction : Bytes → ManagerState M → Transaction
  new_transaction payload s = record {
    header = record {
      channel_id = s.channel_id;
      participant = env.signer_address;
      fork_cnt = get_latest_fork_cnt s.agreements.forks;
      transaction_cnt = get_next_block_height s.agreements.forks;
      timestamp = now;
    };
    body = record { transaction_type = 0; encoded_data = payload; payload = payload };
  }

  unfoldable pub send_transaction : Bytes → Call M (Unit {0})
  unfolding new_transaction
  send_transaction payload s =
      after (play_transaction env now (new_transaction payload s))
        (λ signed. finishes (emit (Effect.broadcast_block signed))) s

  -- `playTransaction` once it has the mutex.
  abbrev pub played : Transaction → Call M SignedBlock
  played tx s = let (r, s') = play_body env now tx s in (some r, release s')

  -- What is left of `sendTransaction` when its transaction has waited.
  unfoldable pub resume_transaction : Transaction → Call M (Unit {0})
  resume_transaction tx =
      after (played tx) (λ signed. finishes (emit (Effect.broadcast_block signed)))

  -- `StateTransitionService.onSignedBlock`: a block is passed on when it was new.
  unfoldable pub receive_signed_block : SignedBlock → Call M (Unit {0})
  unfolding on_encoded_block
  receive_signed_block signed =
      after (on_encoded_block signed) (pass_on (Effect.broadcast_block signed))

  -- `StateTransitionService.onBlockConfirmation`
  unfoldable pub receive_block_confirmation : SignedBlock → Signature → Call M (Unit {0})
  unfolding on_encoded_confirmation
  receive_block_confirmation signed x =
      after (on_encoded_confirmation signed x) (pass_on (Effect.broadcast_confirmation signed x))
