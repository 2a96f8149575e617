-- ===== src/Manager/Locking.antt =====
-- The mutex across a call of `onSignedBlock` and of `playTransaction`.
use state_channels_plus.Prelude.{
  ℕ, ◌≡◌, inl, inr, true, false, Option, none, some, List, [], ◌∷◌, ok, throw, Error, arith,
  Result-cases,
}
use state_channels_plus.Data.{
  Transaction, Block, SignedBlock, ExecutionFlag, AgreementFlag, decode_block,
}
use state_channels_plus.Forks.{get_agreement_by_block}
use state_channels_plus.Agreement.{confirm_block}
use state_channels_plus.Mutex.{lock, unlock}
use state_channels_plus.Manager.State.{Env, Waiter, ManagerState}
use state_channels_plus.Manager.Validation.{
  is_enough_time_subjective, process_state_transition, validate_producer, validate_next,
  validate_past, validate_place, validate_signed_block,
}
use state_channels_plus.Manager.Decisions.{
  on_success_common, confirm_own, dispute_double_sign, dispute_incorrect_data,
  process_execution_decision,
}
use state_channels_plus.Manager.Calls.{run_signed_block, on_signed_block}
use state_channels_plus.Manager.Author.{play_transaction}

-- The mutex is free: nobody holds it, and nobody waits.
pub record IsFree {M : Type 0} (s : ManagerState M) : Type 0 where
  pub unlocked : s.mutex.is_locked ≡ false
  pub nobody : s.mutex.queue ≡ []

-- The calls that ask for the mutex, each at some time of the clock.
pub data MutexCall : Type 0 where
  block_arrives : ℕ → SignedBlock → Block → MutexCall
  transaction_played : ℕ → Transaction → MutexCall

module _ {M : Type 0} (env : Env M) where
  unfoldable pub asked : MutexCall → ManagerState M → ManagerState M
  asked (MutexCall.block_arrives later signed b) s = (on_signed_block env later signed b s).1
  asked (MutexCall.transaction_played later tx) s = (play_transaction env later tx s).1

  abbrev pub IsWaiting : MutexCall → ManagerState M → Type 0
  IsWaiting (MutexCall.block_arrives later signed b) s =
      (on_signed_block env later signed b s).0 ≡ none
  IsWaiting (MutexCall.transaction_played later tx) s = (play_transaction env later tx s).0 ≡ none

  -- Each of the calls waits, one after the other.
  abbrev pub AllWait : List MutexCall → ManagerState M → Type 0
  AllWait [] s = s.mutex.is_locked ≡ true
  AllWait (call ∷ calls) s = IsWaiting call s × AllWait calls (asked call s)

  locked-AllWait :
      (calls : List MutexCall) (s : ManagerState M) → s.mutex.is_locked ≡ true → AllWait calls s
  unfolding asked on_signed_block play_transaction lock
  locked-AllWait [] s held = held
  locked-AllWait (MutexCall.block_arrives later signed b ∷ calls) s held =
      (ground arith, locked-AllWait calls (on_signed_block env later signed b s).1 (ground arith))
  locked-AllWait (MutexCall.transaction_played later tx ∷ calls) s held =
      (ground arith, locked-AllWait calls (play_transaction env later tx s).1 (ground arith))

module _ {M : Type 0} (env : Env M) (now : ℕ) where
  process_state_transition-mutex :
      (b : Block) (signed : SignedBlock) (s : ManagerState M)
      → (process_state_transition env now b signed s).1.mutex ≡ s.mutex
  unfolding process_state_transition
  process_state_transition-mutex b signed s = ground arith

  time-mutex :
      (b : Block) (signed : SignedBlock) (s : ManagerState M)
      → (is_enough_time_subjective env now signed b s).1.mutex ≡ s.mutex
  unfolding is_enough_time_subjective
  time-mutex b signed s = ground arith

  validate_next-mutex :
      (b : Block) (signed : SignedBlock) (s : ManagerState M)
      → (validate_next env now b signed s).1.mutex ≡ s.mutex
  unfolding validate_next validate_producer
  validate_next-mutex b signed s =
      let t = is_enough_time_subjective env now signed b s in
      ground (arith, time-mutex b signed s, process_state_transition-mutex b signed t.1)

  validate_past-mutex :
      (signed : SignedBlock) (s : ManagerState M)
      → (validate_past env now signed s).1.mutex ≡ s.mutex
  unfolding validate_past
  validate_past-mutex signed s = ground arith

  validate_signed_block-mutex :
      (signed : SignedBlock) (b : Block) (s : ManagerState M)
      → (validate_signed_block env now signed b s).1.mutex ≡ s.mutex
  unfolding validate_signed_block validate_place
  validate_signed_block-mutex signed b s =
      ground (arith, validate_past-mutex signed s, validate_next-mutex b signed s)

  decision-mutex :
      (signed : SignedBlock) (flag : ExecutionFlag) (af : Option AgreementFlag) (s : ManagerState M)
      → (process_execution_decision env signed flag af s).1.mutex ≡ s.mutex
  unfolding process_execution_decision confirm_own on_success_common dispute_double_sign
      dispute_incorrect_data
  decision-mutex signed ExecutionFlag.success af s = ground arith
  decision-mutex signed ExecutionFlag.dispute none s = ground arith
  decision-mutex signed ExecutionFlag.dispute (some AgreementFlag.double_sign) s = ground arith
  decision-mutex signed ExecutionFlag.dispute (some AgreementFlag.incorrect_data) s = ground arith
  decision-mutex signed ExecutionFlag.dispute (some _) s = ground arith
  decision-mutex signed _ af s = ground arith

  -- A validation that throws has changed none of the agreements.
  process_state_transition-agreements :
      (b : Block) (signed : SignedBlock) (s : ManagerState M) (err : Error)
      → (process_state_transition env now b signed s).0 ≡ throw err
      → (process_state_transition env now b signed s).1.agreements ≡ s.agreements
  unfolding process_state_transition
  process_state_transition-agreements b signed s err h = ground arith

  time-agreements :
      (b : Block) (signed : SignedBlock) (s : ManagerState M)
      → (is_enough_time_subjective env now signed b s).1.agreements ≡ s.agreements
  unfolding is_enough_time_subjective
  time-agreements b signed s = ground arith

  validate_next-agreements :
      (b : Block) (signed : SignedBlock) (s : ManagerState M) (err : Error)
      → (validate_next env now b signed s).0 ≡ throw err
      → (validate_next env now b signed s).1.agreements ≡ s.agreements
  unfolding validate_next validate_producer
  validate_next-agreements b signed s err h =
      let t = is_enough_time_subjective env now signed b s in
      ground
        (arith, time-agreements b signed s, process_state_transition-agreements b signed t.1 err)

  validate_past-unchanged :
      (signed : SignedBlock) (s : ManagerState M)
      → (validate_past env now signed s).1.agreements ≡ s.agreements
  unfolding validate_past
  validate_past-unchanged signed s = ground arith

  validate_signed_block-agreements :
      (signed : SignedBlock) (b : Block) (s : ManagerState M) (err : Error)
      → (validate_signed_block env now signed b s).0 ≡ throw err
      → (validate_signed_block env now signed b s).1.agreements ≡ s.agreements
  unfolding validate_signed_block validate_place
  validate_signed_block-agreements signed b s err h =
      ground (arith, validate_past-unchanged signed s, validate_next-agreements b signed s err)

  confirm_own_missing :
      (signed : SignedBlock) (b : Block) (af : Option AgreementFlag) (s : ManagerState M)
      → decode_block env.ethers signed.encoded_block ≡ ok b
      → get_agreement_by_block s.agreements.forks b ≡ none
      → process_execution_decision env signed ExecutionFlag.success af s
        ≡ (throw Error.confirm_no_block, s)
  unfolding process_execution_decision confirm_own confirm_block
  confirm_own_missing signed b af s hd hn = ground arith

  -- A call of `onSignedBlock` on a free mutex that returns a flag leaves the mutex free.
  pub on_signed_block-IsFree :
      (signed : SignedBlock) (b : Block) (s s' : ManagerState M) (flag : ExecutionFlag)
      → IsFree s
      → on_signed_block env now signed b s ≡ (some (ok flag), s')
      → IsFree s'
  unfolding on_signed_block run_signed_block lock unlock
  on_signed_block-IsFree signed b s s' flag free h =
      let s1 : ManagerState M = record s {
        mutex = (lock (Waiter.signed_block signed) s.mutex).1;
      } in
      let v = validate_signed_block env now signed b s1 in
      elim (Result-cases v.0) [
        | inr (err, thrown) ↦ absurd (ground arith)
        | inl (r, said) ↦ ground (
          arith,
          validate_signed_block-mutex signed b s1,
          decision-mutex signed r.flag r.agreement_flag v.1,
        )
      ]

  -- If the validation of a block throws and the chain holds no agreement at the block's place, the
  -- call throws and the mutex stays locked: of whatever calls of `onSignedBlock` and `playTransaction` come after it,
  -- in whatever order and number, each one is left waiting.
  pub on_signed_block_throw_locks :
      (signed : SignedBlock) (b : Block) (s : ManagerState M) (err : Error)
      → IsFree s
      → decode_block env.ethers signed.encoded_block ≡ ok b
      → get_agreement_by_block s.agreements.forks b ≡ none
      → (validate_signed_block env now signed b
          (record s { mutex = (lock (Waiter.signed_block signed) s.mutex).1 })).0
        ≡ throw err
      → let (r, s') = on_signed_block env now signed b s in
        (r ≡ some (throw Error.confirm_no_block))
        × ((calls : List MutexCall) → AllWait env calls s')
  unfolding on_signed_block run_signed_block lock
  on_signed_block_throw_locks signed b s err free hd hn hv =
      let s1 : ManagerState M = record s {
        mutex = (lock (Waiter.signed_block signed) s.mutex).1;
      } in
      let v = validate_signed_block env now signed b s1 in
      let same = validate_signed_block-agreements signed b s1 err hv in
      let fails = confirm_own_missing signed b none v.1 hd (rw same hn) in
      let held = validate_signed_block-mutex signed b s1 in
      let s' = (on_signed_block env now signed b s).1 in
      (ground arith, λ calls. locked-AllWait env calls s' (ground arith))
