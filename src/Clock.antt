-- ===== src/Clock.antt =====
-- The clock of a peer, set to the chain: src/Clock.ts. The provider of ethers and the time of the system are
-- parameters, asked anew in each round.
pub mod Synced
use state_channels_plus.Prelude.{
  ℕ, zero, suc, ◌+◌, ◌-◌, ◌*◌, Bool, true, false, ◌||◌, Option, none, some, ◌==◌, ltb, leb,
  if◌then◌else◌, Result, ok, throw, Error,
}

pub record ProviderBlock : Type 0 where
  pub number : ℕ
  pub timestamp : ℕ

-- What the calls of a round give: `getBlock("latest")`, `getBlock` of a number, and `new Date()` in seconds.
pub record Provider : Type 0 where
  pub get_latest : ℕ → Option ProviderBlock
  pub get_block : ℕ → ℕ → Option ProviderBlock
  pub seconds : ℕ → ℕ

-- `clockAjustmentSeconds` is `forward - backward`; it can be negative.
pub record Clock : Type 0 where
  pub forward : ℕ
  pub backward : ℕ

unfoldable pub block_count : ℕ → ℕ
block_count number = if leb 100 number then 100 else 0

module _ (p : Provider) where
  -- The adjustment by `latestTimestamp - currentTime`.
  unfoldable pub adjusted : ℕ → ℕ → Clock → Clock
  adjusted round latest c = record {
    forward = c.forward + (latest + c.backward);
    backward = c.backward + (p.seconds round + c.forward);
  }

  -- One round of `syncClock`, and whether another follows. Both sides of the comparison of the difference with twice
  -- the average block time, over 100 blocks, are multiplied by 100. Over no blocks the
  -- average is no number when the timestamps are the same, and else infinite, positive or negative.
  unfoldable pub sync_round : ℕ → Clock → Result Bool × Clock
  unfolding block_count adjusted
  sync_round round c = elim (p.get_latest round) [
    | none ↦ (throw Error.type_error, c)
    | some latest ↦ elim (p.get_block round (latest.number - block_count latest.number)) [
      | none ↦ (throw Error.type_error, c)
      | some past ↦
          let later = adjusted round latest.timestamp c in
          if latest.timestamp == past.timestamp
          then (ok false, later)
          else if block_count latest.number == 0
          then (if ltb latest.timestamp past.timestamp then (ok true, later) else (ok false, c))
          else if ltb (100 * (p.seconds round + c.forward) + 2 * latest.timestamp)
              (100 * (latest.timestamp + c.backward) + 2 * past.timestamp)
          then (ok true, later)
          else (ok false, c)
    ]
  ]

  unfoldable pub sync_clock : ℕ → ℕ → Clock → Option (Result (Unit {0}) × Clock)
  unfolding sync_round
  sync_clock zero round c = none
  sync_clock (suc fuel) round c =
      let (r, c') = sync_round round c in
      let rest = sync_clock fuel (round + 1) c' in
      elim r [
        | throw err ↦ some (throw err, c')
        | ok again ↦ if again then rest else some (ok tt, c')
      ]
