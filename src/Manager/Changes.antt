-- ===== src/Manager/Changes.antt =====
-- Every call that a manager answers is a sequence of changes of its forks.
use state_channels_plus.Prelude.{
  ℕ, ◌≡◌, ap, sym, inl, inr, Option, Result, ok, throw, arith, Bool-cases, Option-cases,
  Result-cases,
}
use state_channels_plus.Data.{
  get_fork, get_height, Bytes, Address, Signature, Transaction, Block, SignedBlock, ExecutionFlag,
  AgreementFlag,
}
use state_channels_plus.Ledger.Valid.{next_height-length}
use state_channels_plus.Ledger.Open.{IsOpen, IsOpen-IsNext}
use state_channels_plus.Ledger.Changes.{
  Changes, still, opened, added, confirmed, posted, Changes-join, one_change, no_change,
}
use state_channels_plus.Mutex.{lock}
use state_channels_plus.Manager.State.{Env, Waiter, ManagerState, ValidationResult, succeeded}
use state_channels_plus.Manager.Validation.{validate_signed_block}
use state_channels_plus.Manager.Decisions.{confirm_own, own_signature, process_execution_decision}
use state_channels_plus.Manager.Calls.{
  finish_signed_block, run_signed_block, on_signed_block, validate_confirmation,
  finish_confirmation, on_block_confirmation,
}
use state_channels_plus.Manager.Author.{
  collect_on_chain_block, set_state, play_body, play_transaction, try_timeout_participant,
}
use state_channels_plus.Manager.Accept.{Accepted, validate_signed_block-Accepted}
use state_channels_plus.Manager.Kept.{
  validate_signed_block-Kept, confirm_own-forks, success-agreements, other_decision-forks,
  finish_signed_block-forks,
}
use state_channels_plus.Manager.Entries.{
  validate_confirmation-state, finish_confirmation-forks, set_state-forks,
  try_timeout_participant-forks, MorePosts, collect-MorePosts, collect_on_chain_block-forks,
}
use state_channels_plus.Manager.Authored.{Authored, play_body-Authored}

module _ {M : Type 0} (env : Env M) where
  -- How a state of the manager follows another.
  abbrev pub Follows : ManagerState M → ManagerState M → Type 0
  Follows s t = Changes env.ethers s.agreements.forks t.agreements.forks

  pub Follows-same : (s t : ManagerState M) → t.agreements.forks ≡ s.agreements.forks → Follows s t
  Follows-same s t h = no_change env.ethers s.agreements.forks t.agreements.forks h

  pub Follows-join : (s t u : ManagerState M) → Follows s t → Follows t u → Follows s u
  Follows-join s t u h k = Changes-join env.ethers h k

module _ {M : Type 0} (env : Env M) (now : ℕ) where
  executed-Follows :
      (signed : SignedBlock) (b : Block) (s t : ManagerState M)
      → Accepted env now signed b s t
      → Follows env s t
  executed-Follows signed b s t acc =
      let x = acc.executed in
      one_change env.ethers (
        added b signed.signature (env.machine.get_state t.machine)
          (λ fk found.
            next_height-length s.agreements.forks (get_fork b) (get_height b) fk acc.current_fork
              acc.next_height found)
          (sym x.state_hash) x.appended)

  validate_signed_block-Follows :
      (signed : SignedBlock) (b : Block) (s : ManagerState M)
      → Follows env s (validate_signed_block env now signed b s).1
  validate_signed_block-Follows signed b s =
      let v = validate_signed_block env now signed b s in
      elim (validate_signed_block-Kept env now signed b s) [
        | inl same ↦ Follows-same env s v.1 (ap (λ a. a.forks) same)
        | inr (r, returned, good) ↦
            executed-Follows signed b s v.1
              (validate_signed_block-Accepted env now signed b s v.1 r (ground arith) good)
      ]

  confirm_own-Follows :
      (signed : SignedBlock) (s : ManagerState M) → Follows env s (confirm_own env signed s).1
  confirm_own-Follows signed s = elim (confirm_own-forks env now signed s) [
    | inl same ↦ Follows-same env s (confirm_own env signed s).1 (ap (λ a. a.forks) same)
    | inr (b, forks, decoded, done, stored, returned) ↦
        rw stored (one_change env.ethers (confirmed b (own_signature env b) done))
  ]

  decision-Follows :
      (signed : SignedBlock) (flag : ExecutionFlag) (af : Option AgreementFlag) (s : ManagerState M)
      → Follows env s (process_execution_decision env signed flag af s).1
  decision-Follows signed ExecutionFlag.success af s =
      rw (success-agreements env now signed af s) (confirm_own-Follows signed s)
  decision-Follows signed flag af s =
      Follows-same env s (process_execution_decision env signed flag af s).1
        (other_decision-forks env now signed flag af s (λ e. ground arith))

  finish_signed_block-Follows :
      (signed : SignedBlock) (v : ValidationResult) (r : Result ExecutionFlag) (s : ManagerState M)
      → Follows env s (finish_signed_block env now signed v r s).1
  finish_signed_block-Follows signed v r s =
      rw (finish_signed_block-forks env now signed v r s)
        (decision-Follows signed v.flag v.agreement_flag s)

  pub run_signed_block-Follows :
      (signed : SignedBlock) (b : Block) (s : ManagerState M)
      → Follows env s (run_signed_block env now signed b s).1
  unfolding run_signed_block
  run_signed_block-Follows signed b s =
      let v = validate_signed_block env now signed b s in
      let first = validate_signed_block-Follows signed b s in
      elim (Result-cases v.0) [
        | inl (r, e) ↦
            let same : (run_signed_block env now signed b s).1
                ≡ (finish_signed_block env now signed r (ok r.flag) v.1).1 =
              ground arith in
            rw same
              (Changes-join env.ethers first (finish_signed_block-Follows signed r (ok r.flag) v.1))
        | inr (err, e) ↦
            let same : (run_signed_block env now signed b s).1
                ≡ (finish_signed_block env now signed succeeded (throw err) v.1).1 =
              ground arith in
            rw same (
              Changes-join env.ethers first
                (finish_signed_block-Follows signed succeeded (throw err) v.1))
      ]

  pub on_signed_block-Follows :
      (signed : SignedBlock) (b : Block) (s : ManagerState M)
      → Follows env s (on_signed_block env now signed b s).1
  unfolding on_signed_block
  on_signed_block-Follows signed b s =
      let (acquired, m) = lock (Waiter.signed_block signed) s.mutex in
      let s1 : ManagerState M = record s { mutex = m } in
      elim (Bool-cases acquired) [
        | inl held ↦ rw held (run_signed_block-Follows signed b s1)
        | inr waits ↦ rw waits still
      ]

  validate_confirmation-Follows :
      (signed : SignedBlock) (x : Signature) (b : Block) (s : ManagerState M)
      → Follows env s (validate_confirmation env now signed x b s).1
  validate_confirmation-Follows signed x b s =
      elim (validate_confirmation-state env now signed x b s) [
        | inl same ↦ rw same still
        | inr nested ↦ rw nested (on_signed_block-Follows signed b s)
      ]

  pub finish_confirmation-Follows :
      (b : Block) (x : Signature) (r : Result ValidationResult) (s : ManagerState M)
      → Follows env s (finish_confirmation env now b x r s).1
  finish_confirmation-Follows b x r s = elim (finish_confirmation-forks env now b x r s) [
    | inl same ↦ Follows-same env s (finish_confirmation env now b x r s).1 same
    | inr done ↦ one_change env.ethers (confirmed b x done)
  ]

  pub on_block_confirmation-Follows :
      (signed : SignedBlock) (x : Signature) (b : Block) (s : ManagerState M)
      → Follows env s (on_block_confirmation env now signed x b s).1
  unfolding on_block_confirmation
  on_block_confirmation-Follows signed x b s =
      let v = validate_confirmation env now signed x b s in
      let first = validate_confirmation-Follows signed x b s in
      elim (Option-cases v.0) [
        | inl waits ↦
            let same : (on_block_confirmation env now signed x b s).1 ≡ v.1 = ground arith in
            rw same first
        | inr (r, e) ↦
            let same : (on_block_confirmation env now signed x b s).1
                ≡ (finish_confirmation env now b x r v.1).1 =
              ground arith in
            rw same (Changes-join env.ethers first (finish_confirmation-Follows b x r v.1))
      ]

  pub set_state-Follows :
      (encoded : Bytes) (cnt ts : ℕ) (s : ManagerState M)
      → Follows env s (set_state env now encoded cnt ts s).1
  set_state-Follows encoded cnt ts s =
      let ps = env.machine.get_participants (env.machine.set_state encoded s.machine) in
      rw (set_state-forks env now encoded cnt ts s)
        (one_change env.ethers (opened encoded ps cnt ts s.agreements.forks))

  collected-Follows :
      (ts : ℕ) (s t : ManagerState M)
      → MorePosts env now ts s.agreements t.agreements
      → Follows env s t
  collected-Follows ts s t (inl same) = Follows-same env s t same
  collected-Follows ts s t (inr (f, h, p, done)) = one_change env.ethers (posted f h p ts done)

  pub collect_on_chain_block-Follows :
      (signed : SignedBlock) (ts : ℕ) (s : ManagerState M)
      → Follows env s (collect_on_chain_block env now signed ts s).1
  collect_on_chain_block-Follows signed ts s =
      collected-Follows ts s (collect_on_chain_block env now signed ts s).1 (
        rw (collect_on_chain_block-forks env now signed ts s)
          (collect-MorePosts env now signed ts s.agreements))

  Authored-Follows :
      (f h : ℕ) (s t : ManagerState M)
      → IsOpen s.agreements.forks f h
      → Authored env now f h s t
      → Follows env s t
  Authored-Follows f h s t o (inl same) = Follows-same env s t same
  Authored-Follows f h s t o (inr (b, x, state, ef, eh, hashed, done)) = one_change env.ethers (
      added b x state
        (IsOpen-IsNext b x state s.agreements.forks t.agreements.forks (rw (ef, eh) o) done) hashed
        done)

  -- A transaction that has the mutex.
  pub play_body-Follows :
      (tx : Transaction) (s : ManagerState M)
      → IsOpen s.agreements.forks tx.header.fork_cnt tx.header.transaction_cnt
      → Follows env s (play_body env now tx s).1
  play_body-Follows tx s o =
      Authored-Follows tx.header.fork_cnt tx.header.transaction_cnt s (play_body env now tx s).1 o
        (play_body-Authored env now tx s)

  pub play_transaction-Follows :
      (tx : Transaction) (s : ManagerState M)
      → IsOpen s.agreements.forks tx.header.fork_cnt tx.header.transaction_cnt
      → Follows env s (play_transaction env now tx s).1
  unfolding play_transaction
  play_transaction-Follows tx s o =
      let (acquired, m) = lock (Waiter.played tx) s.mutex in
      let s1 : ManagerState M = record s { mutex = m } in
      elim (Bool-cases acquired) [
        | inr waits ↦ rw waits still
        | inl held ↦
            let t = (play_body env now tx s1).1 in
            let played : Follows env s1 t = play_body-Follows tx s1 o in rw held played
      ]

  pub try_timeout_participant-Follows :
      (cnt tx_cnt : ℕ) (p : Address) (s : ManagerState M)
      → Follows env s (try_timeout_participant env now cnt tx_cnt p s).1
  try_timeout_participant-Follows cnt tx_cnt p s =
      Follows-same env s (try_timeout_participant env now cnt tx_cnt p s).1
        (try_timeout_participant-forks env now cnt tx_cnt p s)
