-- ===== src/Clock/Synced.antt =====
-- The clock is set within two rounds, when the chain keeps its pace.
use state_channels_plus.Prelude.{
  ℕ, suc, ◌+◌, ◌-◌, ◌*◌, ◌≤◌, ◌⊎◌, ◌==◌, leb, ◌≡◌, refl, true, false, some, ok, arith, Bool-cases,
  inl, inr,
}
use state_channels_plus.Clock.{
  ProviderBlock, Provider, Clock, block_count, adjusted, sync_round, sync_clock,
}

module _ (p : Provider) where
  -- The provider has the blocks that a round asks for, in the order of their timestamps; the block of the latest
  -- number is the latest block.
  pub record Answers (round : ℕ) : Type 0 where
    pub latest : ProviderBlock
    pub past : ProviderBlock
    pub is_latest : p.get_latest round ≡ some latest
    pub is_past : p.get_block round (latest.number - block_count latest.number) ≡ some past
    pub in_order : past.timestamp ≤ latest.timestamp
    pub same_block : block_count latest.number ≡ 0 → past.timestamp ≡ latest.timestamp

  -- In the round the clock reads the timestamp of the latest block.
  abbrev pub IsExact : (round : ℕ) → Answers round → Clock → Type 0
  IsExact round a c = a.latest.timestamp + c.backward ≡ p.seconds round + c.forward

  -- In the round the clock is behind the latest block by at most twice the average time of its last 100 blocks.
  abbrev pub IsClose : (round : ℕ) → Answers round → Clock → Type 0
  IsClose round a c =
      100 * (a.latest.timestamp + c.backward) + 2 * a.past.timestamp
      ≤ 100 * (p.seconds round + c.forward) + 2 * a.latest.timestamp

  adjusted-IsExact :
      (round : ℕ) (a : Answers round) (c : Clock)
      → IsExact round a (adjusted p round a.latest.timestamp c)
  unfolding adjusted
  adjusted-IsExact round a c = omega arith

  -- A round leaves a clock that is close alone, and sets any other one.
  round_cases :
      (round : ℕ) (a : Answers round) (c : Clock)
      → let later = adjusted p round a.latest.timestamp c in
        ((sync_round p round c ≡ (ok false, c)) × IsClose round a c)
        ⊎ (sync_round p round c ≡ (ok false, later))
        ⊎ (sync_round p round c ≡ (ok true, later))
  unfolding sync_round
  round_cases round a c =
      let l = a.is_latest in
      let k = a.is_past in
      let only = a.same_block in
      elim (Bool-cases (a.latest.timestamp == a.past.timestamp)) [
        | inl none_mined ↦ inr (inl (ground arith))
        | inr average ↦ elim (Bool-cases (block_count a.latest.number == 0)) [
          | inl short ↦ absurd (ground arith)
          | inr long ↦
              elim (Bool-cases (
                leb (100 * (a.latest.timestamp + c.backward) + 2 * a.past.timestamp)
                  (100 * (p.seconds round + c.forward) + 2 * a.latest.timestamp))) [
                    | inl close ↦ inl (ground arith, ground arith)
                    | inr behind ↦ inr (inr (ground arith))
                  ]
        ]
      ]

  -- A round on a clock that is not behind the chain is the last one.
  last_round :
      (round : ℕ) (a : Answers round) (c : Clock)
      → a.latest.timestamp + c.backward ≤ p.seconds round + c.forward
      → (sync_round p round c ≡ (ok false, c))
        ⊎ (sync_round p round c ≡ (ok false, adjusted p round a.latest.timestamp c))
  unfolding sync_round
  last_round round a c ahead =
      let l = a.is_latest in
      let k = a.is_past in
      let sorted = a.in_order in
      let only = a.same_block in
      elim (Bool-cases (a.latest.timestamp == a.past.timestamp)) [
        | inl none_mined ↦ inr (ground arith)
        | inr average ↦ elim (Bool-cases (block_count a.latest.number == 0)) [
          | inl short ↦ absurd (ground arith)
          | inr long ↦ inl (ground arith)
        ]
      ]

  -- From one round to the next the chain moves on by no more than the time of the system.
  abbrev pub IsPaced : (round : ℕ) → Answers round → Answers (round + 1) → Type 0
  IsPaced round a b =
      b.latest.timestamp + p.seconds round ≤ a.latest.timestamp + p.seconds (round + 1)

  adjusted-IsPaced :
      (round : ℕ) (a : Answers round) (b : Answers (round + 1)) (c : Clock)
      → IsPaced round a b
      → let c1 = adjusted p round a.latest.timestamp c in
        b.latest.timestamp + c1.backward ≤ p.seconds (round + 1) + c1.forward
  unfolding adjusted
  adjusted-IsPaced round a b c paced = omega arith

  -- When the provider answers two rounds, between which the timestamp of the latest block moves on by no more than the
  -- time of the system, `syncClock` ends without a throw after one or two rounds. Either it leaves the clock as it was,
  -- which is then behind the latest block by at most twice the average block time; or in one of the rounds it has set
  -- the clock, so that it reads the timestamp of the latest block of that round, be it forward or back.
  pub sync_clock-IsExact :
      (fuel round : ℕ) (a : Answers round) (b : Answers (round + 1)) (c : Clock)
      → IsPaced round a b
      → (c' : Clock) × (sync_clock p (suc (suc fuel)) round c ≡ some (ok tt, c'))
        × (((c' ≡ c) × IsClose round a c) ⊎ IsExact round a c' ⊎ IsExact (round + 1) b c')
  unfolding sync_clock
  sync_clock-IsExact fuel round a b c paced =
      let c1 = adjusted p round a.latest.timestamp c in
      elim (round_cases round a c) [
        | inl (done, close) ↦ (c, ground (arith, done), inl (refl, close))
        | inr (inl done) ↦ (c1, ground (arith, done), inr (inl (adjusted-IsExact round a c)))
        | inr (inr again) ↦
            elim (last_round (round + 1) b c1 (adjusted-IsPaced round a b c paced)) [
              | inl done ↦ (c1, ground (arith, again, done), inr (inl (adjusted-IsExact round a c)))
              | inr done ↦ (
                adjusted p (round + 1) b.latest.timestamp c1,
                ground (arith, again, done),
                inr (inr (adjusted-IsExact (round + 1) b c1)),
              )
            ]
      ]
