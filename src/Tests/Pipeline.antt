-- ===== src/Tests/Pipeline.antt =====
-- The pipeline of incoming blocks, and the mutex, at concrete inputs.
use state_channels_plus.Prelude.{
  List, ℕ, suc, ◌≡◌, refl, true, false, none, some, [], ◌∷◌, ok, throw, Error, arith, length,
}
use state_channels_plus.Data.{
  Block, SignedBlock, Transaction, ExecutionFlag, decode_block, signed_by, get_fork, get_height,
  get_block_author,
}
use state_channels_plus.AgreementTypes.{Agreement}
use state_channels_plus.Forks.{get_agreement, get_agreement_by_block, new_fork}
use state_channels_plus.Forks.Ordered.{empty-IsOrdered, new_fork-IsOrdered}
use state_channels_plus.Forks.Hashed.{IsHashed, new_fork-IsHashed}
use state_channels_plus.Mutex.{Mutex, lock, unlock}
use state_channels_plus.Mutex.Exclusion.{
  System, start, request, finish_times, Reach, requests, next, here, IsFair, Reach-IsFair,
  finish_times-all,
}
use state_channels_plus.Manager.{
  Env, ManagerState, ValidationResult, Waiter, succeeded, validate_signed_block, on_signed_block,
  play_transaction,
}
use state_channels_plus.Manager.Accept.{Accepted, validate_signed_block-Accepted}
use state_channels_plus.Manager.Locking.{
  IsFree, MutexCall, AllWait, on_signed_block-IsFree, on_signed_block_throw_locks,
}
use state_channels_plus.Manager.Invariant.{IsValid}
use state_channels_plus.Manager.Success.{on_signed_block-success}
use state_channels_plus.Tests.World.{ethers, env, machine, fresh, first, signed_first, garbled}

-- The state after the first block.
abbrev pub after : ManagerState ℕ
after = (on_signed_block env 52 signed_first first fresh).1

no_forks-IsHashed : IsHashed ethers.keccak256 []
unfolding get_agreement
no_forks-IsHashed = record { state_hash = λ i j a p. ground arith }

pub fresh-IsValid : IsValid env fresh
unfolding new_fork
fresh-IsValid = record {
  ordered = new_fork-IsOrdered 0 (1 ∷ 2 ∷ []) 0 50 [] empty-IsOrdered;
  hashed = new_fork-IsHashed ethers.keccak256 0 (1 ∷ 2 ∷ []) 0 50 [] no_forks-IsHashed;
}

fresh-IsFree : IsFree fresh
fresh-IsFree = record { unlocked = refl; nobody = refl }

pub decode_first : decode_block ethers 1 ≡ ok first
unfolding decode_block
decode_first = refl

pub first_accepted :
    on_signed_block env 52 signed_first first fresh ≡ (some (ok ExecutionFlag.success), after)
unfolding state_channels_plus.Mutex.lock state_channels_plus.Manager.validate_signed_block
    state_channels_plus.Forks.get_latest_fork_cnt
    state_channels_plus.Manager.is_signed_block_authentic state_channels_plus.Data.signed_by
    state_channels_plus.Disputes.is_fork_disputed state_channels_plus.Validator.is_block_duplicate
    state_channels_plus.Forks.get_agreement_by_block state_channels_plus.Forks.get_agreement
    state_channels_plus.Queues.is_block_queued state_channels_plus.Forks.get_next_block_height
    state_channels_plus.Agreement.is_participant_in_latest_fork
    state_channels_plus.Manager.is_good_timestamp
    state_channels_plus.Validator.latest_relevant_timestamp
    state_channels_plus.OnChain.latest_timestamp state_channels_plus.Forks.get_latest_agreement
    state_channels_plus.Agreement.confirm_block state_channels_plus.Data.are_blocks_equal
    state_channels_plus.Data.decode_block state_channels_plus.Forks.add_agreement
    state_channels_plus.Forks.add_block state_channels_plus.Manager.process_execution_decision
    state_channels_plus.OnChain.latest_from state_channels_plus.Manager.on_signed_block
first_accepted = refl

abbrev validated : ManagerState ℕ
validated = (validate_signed_block env 52 signed_first first fresh).1

validation_run : validate_signed_block env 52 signed_first first fresh ≡ (ok succeeded, validated)
unfolding state_channels_plus.Manager.validate_signed_block
    state_channels_plus.Forks.get_latest_fork_cnt
    state_channels_plus.Manager.is_signed_block_authentic state_channels_plus.Data.signed_by
    state_channels_plus.Disputes.is_fork_disputed state_channels_plus.Validator.is_block_duplicate
    state_channels_plus.Forks.get_agreement_by_block state_channels_plus.Forks.get_agreement
    state_channels_plus.Queues.is_block_queued state_channels_plus.Forks.get_next_block_height
    state_channels_plus.Agreement.is_participant_in_latest_fork
    state_channels_plus.Manager.is_good_timestamp
    state_channels_plus.Validator.latest_relevant_timestamp
    state_channels_plus.OnChain.latest_timestamp state_channels_plus.Forks.get_latest_agreement
    state_channels_plus.Forks.add_block state_channels_plus.OnChain.latest_from
validation_run = refl

garbled_throws :
    (validate_signed_block env 52 garbled first
      (record fresh { mutex = (lock (Waiter.signed_block garbled) fresh.mutex).1 })).0
    ≡ throw Error.bad_signature
unfolding state_channels_plus.Manager.validate_signed_block
    state_channels_plus.Forks.get_latest_fork_cnt
    state_channels_plus.Manager.is_signed_block_authentic state_channels_plus.Data.signed_by
garbled_throws = refl

first_is_new : get_agreement_by_block fresh.agreements.forks first ≡ none
unfolding state_channels_plus.Forks.get_agreement_by_block state_channels_plus.Forks.get_agreement
first_is_new = refl

-- The second block, by this peer's turn: a replay of the first block is answered with DUPLICATE.
replay_is_duplicate :
    (on_signed_block env 52 signed_first first after).0 ≡ some (ok ExecutionFlag.duplicate)
unfolding state_channels_plus.Mutex.lock state_channels_plus.Mutex.unlock
    state_channels_plus.Manager.validate_signed_block state_channels_plus.Forks.get_latest_fork_cnt
    state_channels_plus.Manager.is_signed_block_authentic state_channels_plus.Data.signed_by
    state_channels_plus.Disputes.is_fork_disputed state_channels_plus.Validator.is_block_duplicate
    state_channels_plus.Forks.get_agreement_by_block state_channels_plus.Forks.get_agreement
    state_channels_plus.Queues.is_block_queued state_channels_plus.Forks.get_next_block_height
    state_channels_plus.Agreement.is_participant_in_latest_fork
    state_channels_plus.Manager.is_good_timestamp
    state_channels_plus.Validator.latest_relevant_timestamp
    state_channels_plus.OnChain.latest_timestamp state_channels_plus.Forks.get_latest_agreement
    state_channels_plus.Agreement.confirm_block state_channels_plus.Data.are_blocks_equal
    state_channels_plus.Data.decode_block state_channels_plus.Forks.add_agreement
    state_channels_plus.Forks.add_block state_channels_plus.Manager.process_execution_decision
    state_channels_plus.OnChain.latest_from state_channels_plus.Manager.on_signed_block
replay_is_duplicate = refl

on_signed_block-success_example :
    (fresh.mutex.is_locked ≡ false)
    × (signed_by ethers 1 1 ≡ ok (get_block_author first))
    × (get_agreement_by_block fresh.agreements.forks first ≡ none)
    × (get_block_author first ≡ machine.get_next_to_write 0)
    × (machine.state_transition first.transaction 0 ≡ (true, after.machine))
    × (ethers.keccak256 (machine.get_state 0) ≡ first.previous_state_hash)
    × (ethers.keccak256 (machine.get_state after.machine) ≡ first.state_hash)
    × (get_agreement_by_block after.agreements.forks first
        ≡ some (record {
          block = first;
          block_signatures = 1 ∷ 2 ∷ [];
          encoded_state = after.machine;
        }))
    × ((i j : ℕ) (a : Agreement)
        → get_agreement fresh.agreements.forks i j ≡ some a
        → get_agreement after.agreements.forks i j ≡ some a)
on_signed_block-success_example =
    on_signed_block-success env 52 signed_first first fresh after fresh-IsValid decode_first
      first_accepted

validate_signed_block-Accepted_example : Accepted env 52 signed_first first fresh validated
validate_signed_block-Accepted_example =
    validate_signed_block-Accepted env 52 signed_first first fresh validated succeeded
      validation_run refl

on_signed_block-IsFree_example : IsFree after
on_signed_block-IsFree_example =
    on_signed_block-IsFree env 52 signed_first first fresh after ExecutionFlag.success fresh-IsFree
      first_accepted

on_signed_block_throw_locks_example :
    let (r, s') = on_signed_block env 52 garbled first fresh in
    (r ≡ some (throw Error.confirm_no_block)) × ((calls : List MutexCall) → AllWait env calls s')
on_signed_block_throw_locks_example =
    on_signed_block_throw_locks env 52 garbled first fresh Error.bad_signature fresh-IsFree
      decode_first first_is_new garbled_throws

-- Calls 5, 6 and 7 ask for the mutex in turn, and 5 unlocks.
abbrev three_asked : System ℕ
three_asked = request 7 (request 6 (request 5 start))

three-Reach : Reach three_asked
three-Reach =
    next (next (next here (requests start 5)) (requests (request 5 start) 6))
      (requests (request 6 (request 5 start)) 7)

three_locked : three_asked.mutex.is_locked ≡ true
unfolding request lock
three_locked = refl

Reach-IsFair_example : IsFair three_asked
Reach-IsFair_example = Reach-IsFair three-Reach

finish_times-all_example :
    let t = finish_times (suc (length three_asked.mutex.queue)) three_asked in
    (t.granted ≡ three_asked.requested) × (t.mutex.is_locked ≡ false) × (t.running ≡ [])
finish_times-all_example = finish_times-all three_asked three-Reach three_locked
