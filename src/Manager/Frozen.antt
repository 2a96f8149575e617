-- ===== src/Manager/Frozen.antt =====
-- A disputed fork takes no more blocks of other peers.
use state_channels_plus.Prelude.{ℕ, ◌≡◌, ◌≢◌, some, ok, arith}
use state_channels_plus.Data.{Block, SignedBlock, ExecutionFlag, get_fork}
use state_channels_plus.Proofs.{Dispute, to_number}
use state_channels_plus.Mutex.{lock}
use state_channels_plus.Manager.State.{Env, Waiter, ManagerState}
use state_channels_plus.Manager.Calls.{on_signed_block}
use state_channels_plus.Manager.Accept.{validate_signed_block-Accepted}
use state_channels_plus.Manager.Success.{run_ok, decision_ok}
use state_channels_plus.Manager.Tasks.{new_transaction, on_dispute_update, set_channel_id}
use state_channels_plus.Manager.Disputed.{
  IsDisputed, finish_confirmation-disputes, on_signed_block-IsDisputed, run_signed_block-IsDisputed,
  on_block_confirmation-IsDisputed,
}
use state_channels_plus.Manager.Disputed.Events.{
  set_state-disputes, collect_on_chain_block-IsDisputed, try_timeout-IsDisputed,
}
use state_channels_plus.Manager.Reach.{
  Step, Reach, here, next, signed_block, confirmation, resume, state_set, posted, timed_out,
  resumed, confirmation_resumed, block_received, confirmation_received, transaction_sent,
  blocks_dequeued, confirmations_dequeued, post_due, dispute_updated, channel_set,
}
use state_channels_plus.Manager.Disputed.Tasks.{
  try_execute-IsDisputed, try_confirm-IsDisputed, maybe_post-disputes, send_transaction-IsDisputed,
  resume_transaction-IsDisputed, receive_signed_block-IsDisputed, receive_confirmation-IsDisputed,
  on_dispute_update-IsDisputed, on_dispute_update-IsDisputed_own,
}

module _ {M : Type 0} (env : Env M) (f : ℕ) where
  Step-IsDisputed : {s t : ManagerState M} → Step env s t → IsDisputed f s → IsDisputed f t
  unfolding set_channel_id
  Step-IsDisputed (signed_block s now signed b) h =
      on_signed_block-IsDisputed env now f signed b s h
  Step-IsDisputed (confirmation s now signed x b) h =
      on_block_confirmation-IsDisputed env now f signed x b s h
  Step-IsDisputed (state_set s now encoded cnt ts) h =
      rw (set_state-disputes env now f encoded cnt ts s) h
  Step-IsDisputed (posted s now signed ts) h =
      collect_on_chain_block-IsDisputed env now f signed ts s h
  Step-IsDisputed (timed_out s now cnt tx_cnt p) h =
      try_timeout-IsDisputed env now f cnt tx_cnt p s h
  Step-IsDisputed (resumed s now signed b) h = run_signed_block-IsDisputed env now f signed b s h
  Step-IsDisputed (confirmation_resumed s now b x r) h =
      rw (finish_confirmation-disputes env now f b x r s) h
  Step-IsDisputed (block_received s now signed) h =
      receive_signed_block-IsDisputed env now f signed s h
  Step-IsDisputed (confirmation_received s now signed x) h =
      receive_confirmation-IsDisputed env now f signed x s h
  Step-IsDisputed (transaction_sent s now payload) h =
      send_transaction-IsDisputed env now f payload s h
  Step-IsDisputed (blocks_dequeued s now) h = try_execute-IsDisputed env now f s h
  Step-IsDisputed (confirmations_dequeued s now) h = try_confirm-IsDisputed env now f s h
  Step-IsDisputed (post_due s now b signed) h = rw (maybe_post-disputes env now f b signed s) h
  Step-IsDisputed (dispute_updated s now dispute) h =
      on_dispute_update-IsDisputed env now f dispute s h
  Step-IsDisputed (channel_set s now channel) h = h

  Reach-IsDisputed : {s t : ManagerState M} → Reach env s t → IsDisputed f s → IsDisputed f t
  Reach-IsDisputed here h = h
  Reach-IsDisputed (next r step) h = Step-IsDisputed step (Reach-IsDisputed r h)
  Reach-IsDisputed (resume {s} {t} {u} sent now payload r later) h =
      resume_transaction-IsDisputed env now f (new_transaction env sent payload t) u
        (Reach-IsDisputed later (Reach-IsDisputed r h))

module _ {M : Type 0} (env : Env M) (now : ℕ) where
  refused :
      (signed : SignedBlock) (b : Block) (s : ManagerState M)
      → IsDisputed (get_fork b) s
      → (on_signed_block env now signed b s).0 ≢ some (ok ExecutionFlag.success)
  unfolding on_signed_block lock
  refused signed b s h good =
      let s1 : ManagerState M = record s {
        mutex = (lock (Waiter.signed_block signed) s.mutex).1;
      } in
      let t = (on_signed_block env now signed b s).1 in
      let (r, v, validated, finished) = run_ok env now signed b s1 t (ground arith) in
      let (flag, signs, stored, machine) = decision_ok env now signed r v t finished in
      let acc = validate_signed_block-Accepted env now signed b s1 v r validated flag in
      let free = acc.undisputed in absurd (ground arith)

-- Once `onDisputeUpdate` has been called for a fork, `onSignedBlock` does not answer SUCCESS on a block
-- of this fork, whatever calls came in between.
pub on_dispute_update_freezes :
    {M : Type 0} (env : Env M) (now later : ℕ) (dispute : Dispute) (signed : SignedBlock)
    (b : Block) (s t : ManagerState M)
    → Reach env (on_dispute_update env now dispute s).1 t
    → get_fork b ≡ to_number dispute.fork_cnt
    → (on_signed_block env later signed b t).0 ≢ some (ok ExecutionFlag.success)
on_dispute_update_freezes env now later dispute signed b s t r same =
    let f = to_number dispute.fork_cnt in
    refused env later signed b t
      (rw same (Reach-IsDisputed env f r (on_dispute_update-IsDisputed_own env now f dispute s)))
