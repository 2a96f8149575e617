-- ===== src/Manager/Disputed/Tasks.antt =====
-- A fork that is disputed stays disputed: the tasks, and the calls from peers and from the application.
use state_channels_plus.Prelude.{ℕ, ◌≡◌, refl, inl, inr, true, List, [], ◌∷◌, arith}
use state_channels_plus.Prelude.Dict.{lookup-insert}
use state_channels_plus.Data.{Transaction, Bytes, Signature, Block, SignedBlock}
use state_channels_plus.AgreementTypes.{BlockConfirmation}
use state_channels_plus.Forks.{get_latest_fork_cnt, get_next_block_height}
use state_channels_plus.Queues.{try_dequeue}
use state_channels_plus.Proofs.{Dispute, to_number}
use state_channels_plus.Disputes.{set_fork_disputed, is_fork_disputed}
use state_channels_plus.Manager.State.{Env, Effect, ManagerState, emit}
use state_channels_plus.Manager.Author.{play_transaction}
use state_channels_plus.Manager.Tasks.{
  resume_transaction, played, Call, after, finishes, pass_on, on_encoded_block,
  on_encoded_confirmation, execute_all, confirm_all, try_execute_from_queue, try_confirm_from_queue,
  maybe_post_block_on_chain, on_dispute_update, new_transaction, send_transaction,
  receive_signed_block, receive_block_confirmation,
}
use state_channels_plus.Manager.Tasks.Changes.{
  after_state, encoded_block_state, encoded_confirmation_state, execute_all_state,
  confirm_all_state,
}
use state_channels_plus.Manager.Disputed.{
  IsDisputed, set_fork_disputed-is_fork_disputed, on_signed_block-IsDisputed,
  on_block_confirmation-IsDisputed,
}
use state_channels_plus.Manager.Disputed.Events.{
  play_transaction-disputes, play_body-disputes, on_dispute_update_marks,
}

module _ {M : Type 0} (env : Env M) (now f : ℕ) where
  after-IsDisputed :
      {A B : Type 0} (call : Call M A) (k : A → Call M B) (s : ManagerState M)
      → IsDisputed f (call s).1
      → ((a : A) (t : ManagerState M) → (k a t).1.disputes ≡ t.disputes)
      → IsDisputed f (after call k s).1
  after-IsDisputed call k s first second = elim (after_state env call k s) [
    | inl only ↦ rw only first
    | inr (a, both) ↦ rw (both, second a (call s).1) first
  ]

  on_encoded_block-IsDisputed :
      (signed : SignedBlock) (s : ManagerState M)
      → IsDisputed f s
      → IsDisputed f (on_encoded_block env now signed s).1
  on_encoded_block-IsDisputed signed s h = elim (encoded_block_state env now signed s) [
    | inl same ↦ rw same h
    | inr (b, decoded) ↦ rw decoded (on_signed_block-IsDisputed env now f signed b s h)
  ]

  on_encoded_confirmation-IsDisputed :
      (signed : SignedBlock) (x : Signature) (s : ManagerState M)
      → IsDisputed f s
      → IsDisputed f (on_encoded_confirmation env now signed x s).1
  on_encoded_confirmation-IsDisputed signed x s h =
      elim (encoded_confirmation_state env now signed x s) [
        | inl same ↦ rw same h
        | inr (b, decoded) ↦ rw decoded (on_block_confirmation-IsDisputed env now f signed x b s h)
      ]

  execute_all-IsDisputed :
      (xs : List SignedBlock) (s : ManagerState M)
      → IsDisputed f s
      → IsDisputed f (execute_all env now xs s).1
  unfolding execute_all
  execute_all-IsDisputed [] s h = h
  execute_all-IsDisputed (x ∷ rest) s h =
      let h' = on_encoded_block-IsDisputed x s h in
      elim (execute_all_state env now x rest s) [
        | inl only ↦ rw only h'
        | inr on ↦ rw on (execute_all-IsDisputed rest (on_encoded_block env now x s).1 h')
      ]

  confirm_all-IsDisputed :
      (cs : List BlockConfirmation) (s : ManagerState M)
      → IsDisputed f s
      → IsDisputed f (confirm_all env now cs s).1
  unfolding confirm_all
  confirm_all-IsDisputed [] s h = h
  confirm_all-IsDisputed (c ∷ rest) s h =
      let x = c.confirmation_signature in
      let h' = on_encoded_confirmation-IsDisputed c.original_signed_block x s h in
      elim (confirm_all_state env now c rest s) [
        | inl only ↦ rw only h'
        | inr on ↦ rw on (
            confirm_all-IsDisputed rest
              (on_encoded_confirmation env now c.original_signed_block x s).1 h')
      ]

  pub try_execute-IsDisputed :
      (s : ManagerState M) → IsDisputed f s → IsDisputed f (try_execute_from_queue env now s).1
  unfolding try_execute_from_queue
  try_execute-IsDisputed s h =
      let forks = s.agreements.forks in
      let (blocks, q) =
        try_dequeue (get_latest_fork_cnt forks) (get_next_block_height forks)
          s.agreements.block_q in
      execute_all-IsDisputed blocks
        (record s { agreements = record (s.agreements) { block_q = q } }) h

  pub try_confirm-IsDisputed :
      (s : ManagerState M) → IsDisputed f s → IsDisputed f (try_confirm_from_queue env now s).1
  unfolding try_confirm_from_queue
  try_confirm-IsDisputed s h =
      let forks = s.agreements.forks in
      let (cs, q) =
        try_dequeue (get_latest_fork_cnt forks) (get_next_block_height forks) s.agreements.conf_q in
      confirm_all-IsDisputed cs (record s { agreements = record (s.agreements) { conf_q = q } }) h

  pub maybe_post-disputes :
      (b : Block) (signed : SignedBlock) (s : ManagerState M)
      → (maybe_post_block_on_chain env now b signed s).1.disputes ≡ s.disputes
  unfolding maybe_post_block_on_chain
  maybe_post-disputes b signed s = ground arith

  pub send_transaction-IsDisputed :
      (payload : Bytes) (s : ManagerState M)
      → IsDisputed f s
      → IsDisputed f (send_transaction env now payload s).1
  unfolding send_transaction
  send_transaction-IsDisputed payload s h =
      let tx = new_transaction env now payload s in
      after-IsDisputed (play_transaction env now tx)
        (λ signed. finishes (emit (Effect.broadcast_block signed))) s
        (rw (play_transaction-disputes env now f tx s) h) (λ signed t. refl)

  pub resume_transaction-IsDisputed :
      (tx : Transaction) (s : ManagerState M)
      → IsDisputed f s
      → IsDisputed f (resume_transaction env now tx s).1
  unfolding resume_transaction
  resume_transaction-IsDisputed tx s h =
      after-IsDisputed (played env now tx)
        (λ signed. finishes (emit (Effect.broadcast_block signed))) s
        (rw (play_body-disputes env now f tx s) h) (λ signed t. refl)

  pub receive_signed_block-IsDisputed :
      (signed : SignedBlock) (s : ManagerState M)
      → IsDisputed f s
      → IsDisputed f (receive_signed_block env now signed s).1
  unfolding receive_signed_block
  receive_signed_block-IsDisputed signed s h =
      after-IsDisputed (on_encoded_block env now signed) (pass_on (Effect.broadcast_block signed)) s
        (on_encoded_block-IsDisputed signed s h) (λ flag t. ground arith)

  pub receive_confirmation-IsDisputed :
      (signed : SignedBlock) (x : Signature) (s : ManagerState M)
      → IsDisputed f s
      → IsDisputed f (receive_block_confirmation env now signed x s).1
  unfolding receive_block_confirmation
  receive_confirmation-IsDisputed signed x s h =
      after-IsDisputed (on_encoded_confirmation env now signed x)
        (pass_on (Effect.broadcast_confirmation signed x)) s
        (on_encoded_confirmation-IsDisputed signed x s h) (λ flag t. ground arith)

  pub on_dispute_update-IsDisputed :
      (dispute : Dispute) (s : ManagerState M)
      → IsDisputed f s
      → IsDisputed f (on_dispute_update env now dispute s).1
  unfolding is_fork_disputed
  on_dispute_update-IsDisputed dispute s h =
      let g = to_number dispute.fork_cnt in
      ground (
        arith,
        on_dispute_update_marks env now f dispute s,
        set_fork_disputed-is_fork_disputed f g s.disputes h,
      )

  pub on_dispute_update-IsDisputed_own :
      (dispute : Dispute) (s : ManagerState M)
      → IsDisputed (to_number dispute.fork_cnt) (on_dispute_update env now dispute s).1
  unfolding is_fork_disputed set_fork_disputed
  on_dispute_update-IsDisputed_own dispute s =
      let g = to_number dispute.fork_cnt in
      ground (
        arith,
        on_dispute_update_marks env now f dispute s,
        lookup-insert g g true s.disputes.disputed_forks,
      )
