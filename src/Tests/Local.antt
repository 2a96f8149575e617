-- ===== src/Tests/Local.antt =====
-- The clock and the barrier of a peer, at concrete inputs.
use state_channels_plus.Prelude.{
  ℕ, ◌+◌, ◌≡◌, ◌⊎◌, refl, some, List, [], ◌∷◌, ok, leb, if◌then◌else◌, arith,
}
use state_channels_plus.Clock.{ProviderBlock, Provider, Clock, sync_clock}
use state_channels_plus.Clock.Synced.{Answers, IsExact, IsClose, IsPaced, sync_clock-IsExact}
use state_channels_plus.Barrier.Permits.{
  BarrierCall, tries, allows, on_calls, new_passage, IsFair, on_calls-IsFair,
}

-- A chain with a block every 12 seconds, 300 seconds ahead of the system, and its block of 1200 seconds before.
abbrev block_200 : ProviderBlock
block_200 = record { number = 200; timestamp = 5300 }

abbrev block_100 : ProviderBlock
block_100 = record { number = 100; timestamp = 4100 }

abbrev provider : Provider
provider = record {
  get_latest = λ round. some block_200;
  get_block = λ round number. some (if leb 200 number then block_200 else block_100);
  seconds = λ round. 5000 + round;
}

answers : (round : ℕ) → Answers provider round
unfolding state_channels_plus.Clock.block_count
answers round = record {
  latest = block_200;
  past = block_100;
  is_latest = refl;
  is_past = refl;
  in_order = omega arith;
  same_block = λ n. absurd (ground arith);
}

abbrev unset : Clock
unset = record { forward = 0; backward = 0 }

paced : IsPaced provider 0 (answers 0) (answers 1)
unfolding answers
paced = omega arith

sync_clock-IsExact_example :
    (c : Clock) × (sync_clock provider 2 0 unset ≡ some (ok tt, c))
    × (((c ≡ unset) × IsClose provider 0 (answers 0) unset)
        ⊎ IsExact provider 0 (answers 0) c
        ⊎ IsExact provider 1 (answers 1) c)
sync_clock-IsExact_example = sync_clock-IsExact provider 0 0 (answers 0) (answers 1) unset paced

-- Two calls come and are let pass, and of two permits more a third call uses one.
abbrev calls : List (BarrierCall ℕ)
calls = tries 1 ∷ tries 2 ∷ allows ∷ allows ∷ allows ∷ allows ∷ tries 3 ∷ []

on_calls-IsFair_example : IsFair (1 ∷ 2 ∷ 3 ∷ []) 4 (on_calls calls new_passage)
on_calls-IsFair_example = on_calls-IsFair calls
