-- ===== src/Manager/Reach.antt =====
-- The agreements of a peer over any sequence of the calls that its manager answers.
use state_channels_plus.Prelude.{ℕ, ◌≡◌, refl, ap, some, Result}
use state_channels_plus.Data.{Bytes, Address, Signature, Block, SignedBlock}
use state_channels_plus.AgreementTypes.{Agreement}
use state_channels_plus.Forks.{get_agreement}
use state_channels_plus.Ledger.{History}
use state_channels_plus.Ledger.Prefix.{History-entry_at}
use state_channels_plus.Ledger.View.{
  ledger, entry_of_agreement, entry_at-ledger, agreement_of_entry,
}
use state_channels_plus.Ledger.Open.{next-IsOpen, Changes-IsOpen}
use state_channels_plus.Ledger.Refine.{Changes-History}
use state_channels_plus.Manager.State.{Env, ValidationResult, ManagerState}
use state_channels_plus.Manager.Calls.{
  finish_confirmation, run_signed_block, on_signed_block, on_block_confirmation,
}
use state_channels_plus.Manager.Author.{collect_on_chain_block, set_state, try_timeout_participant}
use state_channels_plus.Proofs.{Dispute}
use state_channels_plus.Manager.Tasks.{
  receive_signed_block, receive_block_confirmation, send_transaction, new_transaction,
  resume_transaction, try_execute_from_queue, try_confirm_from_queue, maybe_post_block_on_chain,
  on_dispute_update, set_channel_id,
}
use state_channels_plus.Manager.Tasks.Changes.{
  receive_signed_block-Follows, receive_block_confirmation-Follows, send_transaction-Follows,
  resume_transaction-Follows, try_execute_from_queue-Follows, try_confirm_from_queue-Follows,
  maybe_post-forks, on_dispute_update-forks, set_channel_id-forks,
}
use state_channels_plus.Manager.Changes.{
  run_signed_block-Follows, finish_confirmation-Follows, Follows, Follows-same, Follows-join,
  on_signed_block-Follows, on_block_confirmation-Follows, set_state-Follows,
  collect_on_chain_block-Follows, try_timeout_participant-Follows,
}
use state_channels_plus.Manager.Invariant.{IsValid, Follows-IsValid}

module _ {M : Type 0} (env : Env M) where
  -- The calls that the manager answers, from peers, from the chain, from the application and from its own
  -- timers, each at some time of the clock, and a call with a block, or with a confirmation, that goes on once the block has had the
  -- mutex.
  pub data Step : ManagerState M → ManagerState M → Type 0 where
    signed_block :
        (s : ManagerState M) (now : ℕ) (signed : SignedBlock) (b : Block)
        → Step s (on_signed_block env now signed b s).1
    confirmation :
        (s : ManagerState M) (now : ℕ) (signed : SignedBlock) (x : Signature) (b : Block)
        → Step s (on_block_confirmation env now signed x b s).1
    state_set :
        (s : ManagerState M) (now : ℕ) (encoded : Bytes) (fork_cnt ts : ℕ)
        → Step s (set_state env now encoded fork_cnt ts s).1
    posted :
        (s : ManagerState M) (now : ℕ) (signed : SignedBlock) (ts : ℕ)
        → Step s (collect_on_chain_block env now signed ts s).1
    timed_out :
        (s : ManagerState M) (now : ℕ) (fork_cnt tx_cnt : ℕ) (p : Address)
        → Step s (try_timeout_participant env now fork_cnt tx_cnt p s).1
    resumed :
        (s : ManagerState M) (now : ℕ) (signed : SignedBlock) (b : Block)
        → Step s (run_signed_block env now signed b s).1
    confirmation_resumed :
        (s : ManagerState M) (now : ℕ) (b : Block) (x : Signature) (r : Result ValidationResult)
        → Step s (finish_confirmation env now b x r s).1
    block_received :
        (s : ManagerState M) (now : ℕ) (signed : SignedBlock)
        → Step s (receive_signed_block env now signed s).1
    confirmation_received :
        (s : ManagerState M) (now : ℕ) (signed : SignedBlock) (x : Signature)
        → Step s (receive_block_confirmation env now signed x s).1
    transaction_sent :
        (s : ManagerState M) (now : ℕ) (payload : Bytes)
        → Step s (send_transaction env now payload s).1
    blocks_dequeued : (s : ManagerState M) (now : ℕ) → Step s (try_execute_from_queue env now s).1
    confirmations_dequeued :
        (s : ManagerState M) (now : ℕ) → Step s (try_confirm_from_queue env now s).1
    post_due :
        (s : ManagerState M) (now : ℕ) (b : Block) (signed : SignedBlock)
        → Step s (maybe_post_block_on_chain env now b signed s).1
    dispute_updated :
        (s : ManagerState M) (now : ℕ) (dispute : Dispute)
        → Step s (on_dispute_update env now dispute s).1
    channel_set :
        (s : ManagerState M) (now : ℕ) (channel : Bytes) → Step s (set_channel_id env now channel s)

  -- Any sequence of such calls. A transaction that the application sends, for the place that is next in the state at
  -- that time, may get the mutex after any calls in between; `playTransaction` has no other caller.
  pub data Reach : ManagerState M → ManagerState M → Type 0 where
    here : {s : ManagerState M} → Reach s s
    next : {s t u : ManagerState M} → Reach s t → Step t u → Reach s u
    resume :
        {s t u : ManagerState M} (sent now : ℕ) (payload : Bytes)
        → Reach s t
        → Reach t u
        → Reach s (resume_transaction env now (new_transaction env sent payload t) u).1

  pub Reach-join : {s t u : ManagerState M} → Reach s t → Reach t u → Reach s u
  Reach-join r here = r
  Reach-join r (next k step) = next (Reach-join r k) step
  Reach-join r (resume sent now payload k later) = resume sent now payload (Reach-join r k) later

  Step-Follows : {s t : ManagerState M} → Step s t → Follows env s t
  Step-Follows (signed_block s now signed b) = on_signed_block-Follows env now signed b s
  Step-Follows (confirmation s now signed x b) = on_block_confirmation-Follows env now signed x b s
  Step-Follows (state_set s now encoded cnt ts) = set_state-Follows env now encoded cnt ts s
  Step-Follows (posted s now signed ts) = collect_on_chain_block-Follows env now signed ts s
  Step-Follows (timed_out s now cnt tx_cnt p) =
      try_timeout_participant-Follows env now cnt tx_cnt p s
  Step-Follows (resumed s now signed b) = run_signed_block-Follows env now signed b s
  Step-Follows (confirmation_resumed s now b x r) = finish_confirmation-Follows env now b x r s
  Step-Follows (block_received s now signed) = receive_signed_block-Follows env now signed s
  Step-Follows (confirmation_received s now signed x) =
      receive_block_confirmation-Follows env now signed x s
  Step-Follows (transaction_sent s now payload) = send_transaction-Follows env now payload s
  Step-Follows (blocks_dequeued s now) = try_execute_from_queue-Follows env now s
  Step-Follows (confirmations_dequeued s now) = try_confirm_from_queue-Follows env now s
  Step-Follows (post_due s now b signed) =
      Follows-same env s (maybe_post_block_on_chain env now b signed s).1
        (ap (λ a. a.forks) (maybe_post-forks env now b signed s))
  Step-Follows (dispute_updated s now dispute) =
      Follows-same env s (on_dispute_update env now dispute s).1
        (ap (λ a. a.forks) (on_dispute_update-forks env now dispute s))
  Step-Follows (channel_set s now channel) =
      Follows-same env s (set_channel_id env now channel s) (set_channel_id-forks env now channel s)

  pub Reach-Follows : {s t : ManagerState M} → Reach s t → Follows env s t
  unfolding new_transaction
  Reach-Follows (here {s}) = Follows-same env s s refl
  Reach-Follows (next {s} {t} {u} r step) =
      Follows-join env s t u (Reach-Follows r) (Step-Follows step)
  Reach-Follows (resume {s} {t} {u} sent now payload r later) =
      let tx = new_transaction env sent payload t in
      let waited = Reach-Follows later in
      let v = (resume_transaction env now tx u).1 in
      let still_open =
        Changes-IsOpen env.ethers tx.header.fork_cnt tx.header.transaction_cnt waited
          (next-IsOpen t.agreements.forks) in
      Follows-join env s t v (Reach-Follows r)
        (Follows-join env t u v waited (resume_transaction-Follows env now tx u still_open))

  -- From valid agreements, any sequence of these calls, with transactions of the application that wait for the mutex
  -- over any calls in between, leads to valid agreements: each stands at the fork and height its block names, and its
  -- block names the hash of its state.
  pub Reach-IsValid : {s t : ManagerState M} → Reach s t → IsValid env s → IsValid env t
  Reach-IsValid {s} {t} r = Follows-IsValid env s t (Reach-Follows r)

  -- Any such sequence of calls is a history of the ledger: what it does to the blocks and the states of the
  -- forks is to open a fork at the end, or to write a block with the state it names the hash of at the
  -- end of its fork. Confirmations, posts, disputes and failures are not seen.
  pub Reach-History :
      {s t : ManagerState M}
      → Reach s t
      → History env.ethers.keccak256 (ledger s.agreements.forks) (ledger t.agreements.forks)
  Reach-History r = Changes-History env.ethers (Reach-Follows r)

  -- An agreement of a peer stays where it is over any such sequence of calls: its place has the same
  -- block and the same state for ever.
  pub get_agreement_append_only :
      {s t : ManagerState M} (i j : ℕ) (a : Agreement)
      → Reach s t
      → get_agreement s.agreements.forks i j ≡ some a
      → (a' : Agreement) × (get_agreement t.agreements.forks i j ≡ some a')
        × (a'.block ≡ a.block)
        × (a'.encoded_state ≡ a.encoded_state)
  get_agreement_append_only {s} {t} i j a r h =
      let kept =
        History-entry_at i j (entry_of_agreement a) (Reach-History r)
          (entry_at-ledger s.agreements.forks i j a h) in
      let (a', found, same) =
        agreement_of_entry t.agreements.forks i j (entry_of_agreement a) kept in
      (a', found, ap (λ x. x.block) same, ap (λ x. x.state) same)
