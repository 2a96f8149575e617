-- ===== src/Manager/Tasks/Changes.antt =====
-- The tasks and the calls from peers and from the application, as sequences of changes of the forks.
use state_channels_plus.Prelude.{
  ℕ, ◌≡◌, ◌⊎◌, refl, inl, inr, List, [], ◌∷◌, Result, ok, throw, arith, Bool-cases, Result-cases,
  Option-cases,
}
use state_channels_plus.Data.{Transaction, Bytes, Signature, Block, SignedBlock, decode_block}
use state_channels_plus.AgreementTypes.{BlockConfirmation}
use state_channels_plus.Forks.{get_latest_fork_cnt, get_next_block_height}
use state_channels_plus.Queues.{try_dequeue}
use state_channels_plus.Proofs.{Proof, Dispute, to_number}
use state_channels_plus.Disputes.{
  HandlerState, set_fork_disputed, update_dispute_if_newer, extract_proofs,
}
use state_channels_plus.Ledger.Changes.{still}
use state_channels_plus.Manager.State.{Env, Effect, ManagerState, emit}
use state_channels_plus.Manager.Calls.{on_signed_block, on_block_confirmation}
use state_channels_plus.Manager.Author.{play_transaction}
use state_channels_plus.Ledger.Open.{IsOpen, next-IsOpen}
use state_channels_plus.Manager.Changes.{
  play_body-Follows, Follows, Follows-same, Follows-join, on_signed_block-Follows,
  on_block_confirmation-Follows, play_transaction-Follows,
}
use state_channels_plus.Manager.Tasks.{
  resume_transaction, played, Call, after, finishes, pass_on, answer_with, on_encoded_block,
  on_encoded_confirmation, execute_all, confirm_all, try_execute_from_queue, try_confirm_from_queue,
  maybe_post_block_on_chain, begin_answer, on_dispute_update, set_channel_id, new_transaction,
  send_transaction, receive_signed_block, receive_block_confirmation,
}

module _ {M : Type 0} (env : Env M) where
  -- Two calls one after the other end in the state of the first or of the second.
  pub after_state :
      {A B : Type 0} (call : Call M A) (k : A → Call M B) (s : ManagerState M)
      → ((after call k s).1 ≡ (call s).1) ⊎ (a : A) × ((after call k s).1 ≡ (k a (call s).1).1)
  after_state call k s = elim (Option-cases (call s).0) [
    | inl waits ↦ inl (ground arith)
    | inr (throw err, e) ↦ inl (ground arith)
    | inr (ok a, e) ↦ inr (a, ground arith)
  ]

  after-Follows :
      {A B : Type 0} (call : Call M A) (k : A → Call M B) (s : ManagerState M)
      → Follows env s (call s).1
      → ((a : A) (t : ManagerState M) → Follows env t (k a t).1)
      → Follows env s (after call k s).1
  after-Follows call k s first second = elim (after_state call k s) [
    | inl only ↦ rw only first
    | inr (a, both) ↦
        rw both (Follows-join env s (call s).1 (k a (call s).1).1 first (second a (call s).1))
  ]

module _ {M : Type 0} (env : Env M) (now : ℕ) where
  pub encoded_block_state :
      (signed : SignedBlock) (s : ManagerState M)
      → ((on_encoded_block env now signed s).1 ≡ s)
        ⊎ (b : Block) × ((on_encoded_block env now signed s).1
            ≡ (on_signed_block env now signed b s).1)
  unfolding on_encoded_block
  encoded_block_state signed s =
      elim (Result-cases (decode_block env.ethers signed.encoded_block)) [
        | inr (err, e) ↦ inl (ground arith)
        | inl (b, e) ↦ inr (b, ground arith)
      ]

  pub on_encoded_block-Follows :
      (signed : SignedBlock) (s : ManagerState M)
      → Follows env s (on_encoded_block env now signed s).1
  on_encoded_block-Follows signed s = elim (encoded_block_state signed s) [
    | inl same ↦ rw same still
    | inr (b, decoded) ↦ rw decoded (on_signed_block-Follows env now signed b s)
  ]

  pub encoded_confirmation_state :
      (signed : SignedBlock) (x : Signature) (s : ManagerState M)
      → ((on_encoded_confirmation env now signed x s).1 ≡ s)
        ⊎ (b : Block) × ((on_encoded_confirmation env now signed x s).1
            ≡ (on_block_confirmation env now signed x b s).1)
  unfolding on_encoded_confirmation
  encoded_confirmation_state signed x s =
      elim (Result-cases (decode_block env.ethers signed.encoded_block)) [
        | inr (err, e) ↦ inl (ground arith)
        | inl (b, e) ↦ inr (b, ground arith)
      ]

  pub on_encoded_confirmation-Follows :
      (signed : SignedBlock) (x : Signature) (s : ManagerState M)
      → Follows env s (on_encoded_confirmation env now signed x s).1
  on_encoded_confirmation-Follows signed x s = elim (encoded_confirmation_state signed x s) [
    | inl same ↦ rw same still
    | inr (b, decoded) ↦ rw decoded (on_block_confirmation-Follows env now signed x b s)
  ]

  -- A loop over a queue ends with an element or goes on.
  pub execute_all_state :
      (x : SignedBlock) (rest : List SignedBlock) (s : ManagerState M)
      → ((execute_all env now (x ∷ rest) s).1 ≡ (on_encoded_block env now x s).1)
        ⊎ ((execute_all env now (x ∷ rest) s).1
            ≡ (execute_all env now rest (on_encoded_block env now x s).1).1)
  unfolding execute_all
  execute_all_state x rest s = ground arith

  execute_all-Follows :
      (xs : List SignedBlock) (s : ManagerState M) → Follows env s (execute_all env now xs s).1
  unfolding execute_all
  execute_all-Follows [] s = still
  execute_all-Follows (x ∷ rest) s =
      let t = (on_encoded_block env now x s).1 in
      elim (execute_all_state x rest s) [
        | inl only ↦ rw only (on_encoded_block-Follows x s)
        | inr on ↦ rw on (
            Follows-join env s t (execute_all env now rest t).1 (on_encoded_block-Follows x s)
              (execute_all-Follows rest t))
      ]

  pub confirm_all_state :
      (c : BlockConfirmation) (rest : List BlockConfirmation) (s : ManagerState M)
      → let t =
          (on_encoded_confirmation env now c.original_signed_block c.confirmation_signature s).1 in
        ((confirm_all env now (c ∷ rest) s).1 ≡ t)
        ⊎ ((confirm_all env now (c ∷ rest) s).1 ≡ (confirm_all env now rest t).1)
  unfolding confirm_all
  confirm_all_state c rest s = ground arith

  confirm_all-Follows :
      (cs : List BlockConfirmation) (s : ManagerState M)
      → Follows env s (confirm_all env now cs s).1
  unfolding confirm_all
  confirm_all-Follows [] s = still
  confirm_all-Follows (c ∷ rest) s =
      let x = c.confirmation_signature in
      let t = (on_encoded_confirmation env now c.original_signed_block x s).1 in
      let first = on_encoded_confirmation-Follows c.original_signed_block x s in
      elim (confirm_all_state c rest s) [
        | inl only ↦ rw only first
        | inr on ↦
            rw on (
              Follows-join env s t (confirm_all env now rest t).1 first
                (confirm_all-Follows rest t))
      ]

  pub try_execute_from_queue-Follows :
      (s : ManagerState M) → Follows env s (try_execute_from_queue env now s).1
  unfolding try_execute_from_queue
  try_execute_from_queue-Follows s =
      let forks = s.agreements.forks in
      let (blocks, q) =
        try_dequeue (get_latest_fork_cnt forks) (get_next_block_height forks)
          s.agreements.block_q in
      execute_all-Follows blocks (record s { agreements = record (s.agreements) { block_q = q } })

  pub try_confirm_from_queue-Follows :
      (s : ManagerState M) → Follows env s (try_confirm_from_queue env now s).1
  unfolding try_confirm_from_queue
  try_confirm_from_queue-Follows s =
      let forks = s.agreements.forks in
      let (confirmations, q) =
        try_dequeue (get_latest_fork_cnt forks) (get_next_block_height forks) s.agreements.conf_q in
      confirm_all-Follows confirmations
        (record s { agreements = record (s.agreements) { conf_q = q } })

  pub maybe_post-forks :
      (b : Block) (signed : SignedBlock) (s : ManagerState M)
      → (maybe_post_block_on_chain env now b signed s).1.agreements ≡ s.agreements
  unfolding maybe_post_block_on_chain
  maybe_post-forks b signed s = ground arith

  answer_with-agreements :
      (dispute : Dispute) (r : Result (List Proof)) (s : ManagerState M)
      → (answer_with env now dispute r s).1.agreements ≡ s.agreements
  answer_with-agreements dispute (throw err) s = refl
  answer_with-agreements dispute (ok []) s = refl
  answer_with-agreements dispute (ok (p ∷ ps)) s = refl

  begin_answer-agreements :
      (dispute : Dispute) (s : ManagerState M)
      → (begin_answer env now dispute s).1.agreements ≡ s.agreements
  unfolding begin_answer
  begin_answer-agreements dispute s =
      let (newer, d) =
        update_dispute_if_newer dispute
          (set_fork_disputed (to_number dispute.fork_cnt) s.disputes) in
      let h : HandlerState (Unit {0}) = record {
        handler = d;
        forks = s.agreements.forks;
        chain = tt;
      } in
      let (r, h') = extract_proofs env.ethers env.coder now dispute h in
      elim (Bool-cases newer) [
        | inr older ↦ rw older refl
        | inl first ↦
            rw first (answer_with-agreements dispute r (record s { disputes = h'.handler }))
      ]

  pub on_dispute_update-forks :
      (dispute : Dispute) (s : ManagerState M)
      → (on_dispute_update env now dispute s).1.agreements ≡ s.agreements
  unfolding on_dispute_update
  on_dispute_update-forks dispute s = begin_answer-agreements dispute s

  pub set_channel_id-forks :
      (channel : Bytes) (s : ManagerState M)
      → (set_channel_id env now channel s).agreements.forks ≡ s.agreements.forks
  unfolding set_channel_id
  set_channel_id-forks channel s = refl

  pub send_transaction-Follows :
      (payload : Bytes) (s : ManagerState M) → Follows env s (send_transaction env now payload s).1
  unfolding send_transaction new_transaction
  send_transaction-Follows payload s =
      let tx = new_transaction env now payload s in
      after-Follows env (play_transaction env now tx)
        (λ signed. finishes (emit (Effect.broadcast_block signed))) s
        (play_transaction-Follows env now tx s (next-IsOpen s.agreements.forks)) (λ signed t. still)

  pub resume_transaction-Follows :
      (tx : Transaction) (s : ManagerState M)
      → IsOpen s.agreements.forks tx.header.fork_cnt tx.header.transaction_cnt
      → Follows env s (resume_transaction env now tx s).1
  unfolding resume_transaction
  resume_transaction-Follows tx s o =
      after-Follows env (played env now tx)
        (λ signed. finishes (emit (Effect.broadcast_block signed))) s
        (play_body-Follows env now tx s o) (λ signed t. still)

  pub receive_signed_block-Follows :
      (signed : SignedBlock) (s : ManagerState M)
      → Follows env s (receive_signed_block env now signed s).1
  unfolding receive_signed_block
  receive_signed_block-Follows signed s =
      after-Follows env (on_encoded_block env now signed) (pass_on (Effect.broadcast_block signed))
        s (on_encoded_block-Follows signed s)
        (λ flag t.
          Follows-same env t (pass_on (Effect.broadcast_block signed) flag t).1 (ground arith))

  pub receive_block_confirmation-Follows :
      (signed : SignedBlock) (x : Signature) (s : ManagerState M)
      → Follows env s (receive_block_confirmation env now signed x s).1
  unfolding receive_block_confirmation
  receive_block_confirmation-Follows signed x s =
      after-Follows env (on_encoded_confirmation env now signed x)
        (pass_on (Effect.broadcast_confirmation signed x)) s
        (on_encoded_confirmation-Follows signed x s)
        (λ flag t.
          Follows-same env t (pass_on (Effect.broadcast_confirmation signed x) flag t).1
            (ground arith))
