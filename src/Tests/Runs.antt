-- ===== src/Tests/Runs.antt =====
-- A run of the manager over several of its entry points.
use state_channels_plus.Prelude.{ℕ, ◌≡◌, refl, some, Result}
use state_channels_plus.Data.{SignedBlock}
use state_channels_plus.Manager.{
  ManagerState, play_transaction, on_signed_block, on_block_confirmation, collect_on_chain_block,
  set_state,
}
use state_channels_plus.Manager.Invariant.{IsValid}
use state_channels_plus.Manager.Locking.{IsFree}
use state_channels_plus.Manager.Authoring.{play_transaction-IsFree}
use state_channels_plus.Manager.Reach.{
  Reach, here, next, signed_block, confirmation, posted, state_set, Reach-IsValid,
}
use state_channels_plus.Tests.World.{env, fresh, first, signed_first, signed_second}
use state_channels_plus.Tests.Pipeline.{fresh-IsValid}

-- The first block arrives, a peer confirms it, the second block is posted on chain, and the chain opens
-- a new fork on the state 2.
abbrev pub arrived : ManagerState ℕ
arrived = (on_signed_block env 52 signed_first first fresh).1

abbrev pub agreed_on : ManagerState ℕ
agreed_on = (on_block_confirmation env 53 signed_first 3 first arrived).1

abbrev pub second_posted : ManagerState ℕ
second_posted = (collect_on_chain_block env 70 signed_second 70 agreed_on).1

abbrev pub reopened : ManagerState ℕ
reopened = (set_state env 80 2 1 80 second_posted).1

pub run : Reach env fresh reopened
run =
    next
      (next
        (next (next here (signed_block fresh 52 signed_first first))
          (confirmation arrived 53 signed_first 3 first))
        (posted agreed_on 70 signed_second 70))
      (state_set second_posted 80 2 1 80)

Reach-IsValid_example : IsValid env reopened
Reach-IsValid_example = Reach-IsValid env run fresh-IsValid

-- The same peer when it is its turn.
abbrev pub my_turn : ManagerState ℕ
my_turn = record fresh { machine = 1 }

my_turn-IsFree : IsFree my_turn
my_turn-IsFree = record { unlocked = refl; nobody = refl }

play_transaction-IsFree_example :
    (r : Result SignedBlock) × ((play_transaction env 60 first.transaction my_turn).0 ≡ some r)
    × IsFree (play_transaction env 60 first.transaction my_turn).1
play_transaction-IsFree_example =
    play_transaction-IsFree env 60 first.transaction my_turn my_turn-IsFree
