-- ===== src/Tests/Chain.antt =====
-- The chain of a peer over several calls, and what its application sends, at concrete inputs.
use state_channels_plus.Prelude.{ℕ, ◌≡◌, ◌≢◌, refl, some, ok, throw, Error}
use state_channels_plus.Data.{ExecutionFlag, Transaction}
use state_channels_plus.Forks.{get_agreement}
use state_channels_plus.Ledger.{History}
use state_channels_plus.Ledger.View.{ledger}
use state_channels_plus.Manager.{
  ManagerState, on_signed_block, adjust_timestamp, play_body, send_transaction, on_dispute_update,
}
use state_channels_plus.Manager.Reach.{
  Reach, here, next, resume, confirmation, posted, state_set, Reach-History,
}
use state_channels_plus.Manager.Tasks.{new_transaction, resume_transaction}
use state_channels_plus.Manager.Once.{on_signed_block_once}
use state_channels_plus.Manager.Sending.{
  Sent, LeavesBehind, send_transaction-Sent, play_body_overtaken,
}
use state_channels_plus.Manager.Frozen.{on_dispute_update_freezes}
use state_channels_plus.Manager.Invariant.{IsValid}
use state_channels_plus.Tests.World.{
  ethers, env, fresh, first, stored_first, played, signed_first, signed_second, signed_rival, rival,
  dispute_at,
}
use state_channels_plus.Tests.Pipeline.{fresh-IsValid, decode_first, first_accepted, after}
use state_channels_plus.Tests.Runs.{run, agreed_on, second_posted, reopened, my_turn}

-- A transaction that is sent at the start gets the mutex after all of this, and its place is taken.
abbrev belated : ManagerState ℕ
belated = (resume_transaction env 90 (new_transaction env 50 1 fresh) reopened).1

belated_run : Reach env fresh belated
belated_run = resume 50 90 1 here run

Reach-History_example :
    History ethers.keccak256 (ledger fresh.agreements.forks) (ledger belated.agreements.forks)
Reach-History_example = Reach-History env belated_run

first_stored : get_agreement after.agreements.forks 0 0 ≡ some stored_first
unfolding state_channels_plus.Mutex.lock state_channels_plus.Mutex.unlock
    state_channels_plus.Manager.validate_signed_block state_channels_plus.Forks.get_latest_fork_cnt
    state_channels_plus.Manager.is_signed_block_authentic state_channels_plus.Data.signed_by
    state_channels_plus.Disputes.is_fork_disputed state_channels_plus.Validator.is_block_duplicate
    state_channels_plus.Forks.get_agreement_by_block state_channels_plus.Forks.get_agreement
    state_channels_plus.Queues.is_block_queued state_channels_plus.Forks.get_next_block_height
    state_channels_plus.Agreement.is_participant_in_latest_fork
    state_channels_plus.Manager.is_good_timestamp
    state_channels_plus.Validator.latest_relevant_timestamp
    state_channels_plus.OnChain.latest_timestamp state_channels_plus.Forks.get_latest_agreement
    state_channels_plus.Agreement.confirm_block state_channels_plus.Data.are_blocks_equal
    state_channels_plus.Data.decode_block state_channels_plus.Forks.add_agreement
    state_channels_plus.Forks.add_block state_channels_plus.Manager.process_execution_decision
    state_channels_plus.OnChain.latest_from state_channels_plus.Manager.on_signed_block
first_stored = refl

-- What follows on the first block.
later_run : Reach env after reopened
later_run =
    next
      (next (next here (confirmation after 53 signed_first 3 first))
        (posted agreed_on 70 signed_second 70))
      (state_set second_posted 80 2 1 80)

decode_rival : state_channels_plus.Data.decode_block ethers 3 ≡ ok rival
unfolding state_channels_plus.Data.decode_block
decode_rival = refl

on_signed_block_once_example :
    (on_signed_block env 90 signed_rival rival reopened).0 ≢ some (ok ExecutionFlag.success)
on_signed_block_once_example =
    on_signed_block_once env 52 90 signed_first signed_rival first rival fresh after reopened
      fresh-IsValid decode_first decode_rival refl refl first_accepted later_run

abbrev sent : ManagerState ℕ
sent = (send_transaction env 60 1 my_turn).1

sending : send_transaction env 60 1 my_turn ≡ (some (ok tt), sent)
unfolding state_channels_plus.Mutex.lock state_channels_plus.Mutex.unlock
    state_channels_plus.Manager.send_transaction state_channels_plus.Manager.play_transaction
    state_channels_plus.Manager.author_block state_channels_plus.Manager.on_success_common
    state_channels_plus.Manager.new_transaction state_channels_plus.Manager.adjust_timestamp
    state_channels_plus.Forks.get_latest_fork_cnt state_channels_plus.Forks.get_next_block_height
    state_channels_plus.Forks.get_agreement_by_block state_channels_plus.Forks.get_agreement
    state_channels_plus.Forks.get_latest_agreement
    state_channels_plus.Validator.latest_block_timestamp
    state_channels_plus.Forks.get_latest_block_timestamp state_channels_plus.Forks.add_agreement
    state_channels_plus.Forks.add_block
sending = refl

my_turn-IsValid : IsValid env my_turn
my_turn-IsValid = record { ordered = fresh-IsValid.ordered; hashed = fresh-IsValid.hashed }

send_transaction-Sent_example : Sent env 60 1 my_turn sent
send_transaction-Sent_example = send_transaction-Sent env 60 1 my_turn sent my_turn-IsValid sending

-- The peer's transaction for the place that the first block has taken.
abbrev stale : Transaction
stale = record (first.transaction) {
  header = record (first.transaction.header) { participant = 2; timestamp = 60 };
}

-- The state when the transaction gets the mutex.
abbrev overtaken : ManagerState ℕ
overtaken = record fresh { agreements = played; machine = 1 }

taken : get_agreement overtaken.agreements.forks 0 0 ≡ some stored_first
unfolding get_agreement
taken = refl

play_body_overtaken_example :
    let (r, s') = play_body env 60 stale overtaken in
    (err : Error) × (r ≡ throw err)
    × (s'.agreements ≡ overtaken.agreements)
    × LeavesBehind env 60 stale overtaken s'
play_body_overtaken_example = play_body_overtaken env 60 stale stored_first overtaken taken

on_dispute_update_freezes_example :
    (on_signed_block env 52 signed_first first
      (on_dispute_update env 52 (dispute_at 7 1) fresh).1).0
    ≢ some (ok ExecutionFlag.success)
on_dispute_update_freezes_example =
    on_dispute_update_freezes env 52 52 (dispute_at 7 1) signed_first first fresh
      (on_dispute_update env 52 (dispute_at 7 1) fresh).1 here refl
