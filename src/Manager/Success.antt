-- ===== src/Manager/Success.antt =====
-- What a SUCCESS of `StateManager.onSignedBlock` stands for.
use state_channels_plus.Prelude.{
  ℕ, ◌≡◌, inl, inr, true, false, none, some, [], ◌∷◌, length, ok, arith, Option-cases, Result-cases,
}
use state_channels_plus.Data.{
  Ethers, Bytes, Signature, Block, SignedBlock, ExecutionFlag, decode_block, get_fork, get_height,
  get_block_author, signed_by,
}
use state_channels_plus.AgreementTypes.{Agreement, AgreementFork, Forks}
use state_channels_plus.Forks.{fork_at, get_agreement, get_agreement_by_block, add_block}
use state_channels_plus.Forks.Ordered.{IsOrdered, new_agreement, add_block_ok, add_block-IsOrdered}
use state_channels_plus.Agreement.{push_signature, confirm_block}
use state_channels_plus.Agreement.Confirm.{confirm_block_effect}
use state_channels_plus.Mutex.{lock}
use state_channels_plus.Manager.State.{Env, Waiter, ManagerState, ValidationResult}
use state_channels_plus.Manager.Validation.{validate_signed_block}
use state_channels_plus.Manager.Decisions.{
  on_success_common, confirm_own, own_signature, process_execution_decision,
}
use state_channels_plus.Manager.Calls.{finish_signed_block, run_signed_block, on_signed_block}
use state_channels_plus.Manager.Accept.{validate_signed_block-Accepted}
use state_channels_plus.Manager.Invariant.{IsValid}
use state_channels_plus.Ledger.Valid.{next_height-length}

add_block-fresh :
    (b : Block) (s : Signature) (state : Bytes) (forks forks' : Forks)
    → add_block b s state forks ≡ ok forks'
    → get_agreement_by_block forks b ≡ none
unfolding add_block
add_block-fresh b s state forks forks' h = elim (Option-cases (get_agreement_by_block forks b)) [
  | inl fresh ↦ fresh
  | inr (ag, stored) ↦ absurd (ground arith)
]

-- The lookups after a block has been added at the next height and confirmed once.
confirmed-lookups :
    (e : Ethers) (b : Block) (s s2 : Signature) (state : Bytes) (forks added forks' : Forks)
    (fk : AgreementFork)
    → IsOrdered forks
    → fork_at forks (get_fork b) ≡ some fk
    → get_height b ≡ length fk.agreements
    → add_block b s state forks ≡ ok added
    → confirm_block e b s2 added ≡ ok forks'
    → (get_agreement_by_block forks' b ≡ some (push_signature s2 (new_agreement b s state)))
      × ((i j : ℕ) (a : Agreement)
          → get_agreement forks i j ≡ some a
          → get_agreement forks' i j ≡ some a)
unfolding get_agreement_by_block
confirmed-lookups e b s s2 state forks added forks' fk o found next ha hc =
    let (ordered, stored, older) = add_block-IsOrdered b s state forks added fk o found next ha in
    let (ag, was, new, view, rest, count, o') =
      confirm_block_effect e b s2 added forks' ordered hc in
    let fresh = add_block-fresh b s state forks added ha in
    (
      ground (arith, view (get_fork b) (get_height b)),
      λ i j a p. ground (arith, view i j, older i j a p),
    )

module _ {M : Type 0} (env : Env M) (now : ℕ) where
  -- The agreement of a block that this peer has accepted and confirmed.
  abbrev pub confirmed_agreement : SignedBlock → Block → ManagerState M → Agreement
  confirmed_agreement signed b s' = record {
    block = b;
    block_signatures = signed.signature ∷ own_signature env b ∷ [];
    encoded_state = env.machine.get_state s'.machine;
  }

  confirmed_own :
      (signed : SignedBlock) (b : Block) (s : ManagerState M)
      → decode_block env.ethers signed.encoded_block ≡ ok b
      → (confirm_own env signed s).0 ≡ ok tt
      → confirm_block env.ethers b (own_signature env b) s.agreements.forks
        ≡ ok (confirm_own env signed s).1.agreements.forks
  unfolding confirm_own
  confirmed_own signed b s hd h =
      elim (Result-cases (confirm_block env.ethers b (own_signature env b) s.agreements.forks)) [
        | inr (err, thrown) ↦ absurd (ground arith)
        | inl (forks, done) ↦ ground arith
      ]

  confirm_own-machine :
      (signed : SignedBlock) (s : ManagerState M) → (confirm_own env signed s).1.machine ≡ s.machine
  unfolding confirm_own
  confirm_own-machine signed s = ground arith

  pub decision_ok :
      (signed : SignedBlock) (r : ValidationResult) (s s' : ManagerState M)
      → finish_signed_block env now signed r (ok r.flag) s ≡ (ok ExecutionFlag.success, s')
      → (r.flag ≡ ExecutionFlag.success)
        × ((confirm_own env signed s).0 ≡ ok tt)
        × (s'.agreements ≡ (confirm_own env signed s).1.agreements)
        × (s'.machine ≡ s.machine)
  unfolding process_execution_decision on_success_common
  decision_ok signed r s s' h =
      let flag : r.flag ≡ ExecutionFlag.success = ground arith in
      elim (Result-cases (confirm_own env signed s).0) [
        | inr (err, thrown) ↦ absurd (ground arith)
        | inl (_, done) ↦
            (flag, ground arith, ground arith, ground (arith, confirm_own-machine signed s))
      ]

  pub run_ok :
      (signed : SignedBlock) (b : Block) (s s' : ManagerState M)
      → run_signed_block env now signed b s ≡ (ok ExecutionFlag.success, s')
      → (r : ValidationResult) × (v : ManagerState M) × (validate_signed_block env now signed b s
          ≡ (ok r, v))
        × (finish_signed_block env now signed r (ok r.flag) v ≡ (ok ExecutionFlag.success, s'))
  unfolding run_signed_block
  run_ok signed b s s' h =
      let v = validate_signed_block env now signed b s in
      elim (Result-cases v.0) [
        | inl (r, e) ↦ (r, v.1, ground arith, ground arith)
        | inr (err, e) ↦ absurd (ground arith)
      ]

  -- If `onSignedBlock` answers SUCCESS on an encoded block, with its agreements valid before, the
  -- call held the mutex, the signature is the author's, the block was no duplicate and its author was next
  -- to write; the machine has made the block's transition, from the state the block names to the
  -- state the block names; the block is stored with its own signature and this peer's, and every
  -- agreement stored before is still there.
  pub on_signed_block-success :
      (signed : SignedBlock) (b : Block) (s s' : ManagerState M)
      → IsValid env s
      → decode_block env.ethers signed.encoded_block ≡ ok b
      → on_signed_block env now signed b s ≡ (some (ok ExecutionFlag.success), s')
      → (s.mutex.is_locked ≡ false)
        × (signed_by env.ethers signed.encoded_block signed.signature ≡ ok (get_block_author b))
        × (get_agreement_by_block s.agreements.forks b ≡ none)
        × (get_block_author b ≡ env.machine.get_next_to_write s.machine)
        × (env.machine.state_transition b.transaction s.machine ≡ (true, s'.machine))
        × (env.ethers.keccak256 (env.machine.get_state s.machine) ≡ b.previous_state_hash)
        × (env.ethers.keccak256 (env.machine.get_state s'.machine) ≡ b.state_hash)
        × (get_agreement_by_block s'.agreements.forks b ≡ some (confirmed_agreement signed b s'))
        × ((i j : ℕ) (a : Agreement)
            → get_agreement s.agreements.forks i j ≡ some a
            → get_agreement s'.agreements.forks i j ≡ some a)
  unfolding on_signed_block lock
  on_signed_block-success signed b s s' k hd h =
      let s1 : ManagerState M = record s {
        mutex = (lock (Waiter.signed_block signed) s.mutex).1;
      } in
      let (r, v, validated, finished) = run_ok signed b s1 s' (ground arith) in
      let (flag, signs, stored, machine) = decision_ok signed r v s' finished in
      let acc = validate_signed_block-Accepted env now signed b s1 v r validated flag in
      let x = acc.executed in
      let confirms = confirmed_own signed b v hd signs in
      let (fk, found, above, e) =
        add_block_ok b signed.signature (env.machine.get_state v.machine) s.agreements.forks
          v.agreements.forks x.appended in
      let (new, older) =
        confirmed-lookups env.ethers b signed.signature (own_signature env b)
          (env.machine.get_state v.machine) s.agreements.forks v.agreements.forks
          (confirm_own env signed v).1.agreements.forks fk k.ordered found
          (next_height-length s.agreements.forks (get_fork b) (get_height b) fk acc.current_fork
            acc.next_height found)
          x.appended confirms in
      (
        ground arith,
        acc.authentic,
        add_block-fresh b signed.signature (env.machine.get_state v.machine) s.agreements.forks
            v.agreements.forks x.appended,
        acc.its_turn,
        rw machine x.transition,
        x.previous_hash,
        rw machine x.state_hash,
        rw (stored, machine) new,
        rw stored older,
      )
