-- ===== src/Disputes/Room.antt =====
-- The room that the disputes of a handler leave for newer ones: a measure of the loop of challenges.
use state_channels_plus.Prelude.{
  ℕ, zero, suc, ◌+◌, ◌-◌, ◌*◌, ◌==◌, ◌≡◌, ◌<◌, ◌≤◌, refl, ap, inl, inr, true, Option, none, some,
  if◌then◌else◌, arith, Bool-cases, Option-cases,
}
use state_channels_plus.Prelude.Dict.{lookup, lookup-insert}
use state_channels_plus.Proofs.{Dispute, to_number}
use state_channels_plus.Disputes.{DisputeState, should_update_dispute, update_dispute_if_newer}

-- How often a fork can still get a newer dispute, of a challenge count up to the bound, and how often the first
-- forks can.
abbrev room_of : ℕ → Option Dispute → ℕ
room_of bound none = bound + 1
room_of bound (some d) = bound - to_number d.challenge_cnt

abbrev pub room : ℕ → ℕ → DisputeState → ℕ
room bound zero d = 0
room bound (suc n) d = room bound n d + room_of bound (lookup n d.disputes)

abbrev pub enough_rounds : ℕ → ℕ → ℕ
enough_rounds last_fork bound = (last_fork + 1) * (bound + 1) + 1

room_below : (bound n : ℕ) (d : DisputeState) → room bound n d ≤ n * (bound + 1)
room_below bound zero d = omega arith
room_below bound (suc n) d =
    let last : room_of bound (lookup n d.disputes) ≤ bound + 1 =
      elim (Option-cases (lookup n d.disputes)) [
        | inl missing ↦ rw missing (omega arith)
        | inr (x, found) ↦ rw found (omega arith)
      ] in
    let more : suc n * (bound + 1) ≡ n * (bound + 1) + (bound + 1) = omega arith in
    omega (arith, room_below bound n d, last, more)

pub room-enough_rounds :
    (last_fork bound : ℕ) (d : DisputeState)
    → room bound (last_fork + 1) d < enough_rounds last_fork bound
room-enough_rounds last_fork bound d = omega (arith, room_below bound (last_fork + 1) d)

pub room_same :
    (bound n : ℕ) (d d' : DisputeState)
    → d'.disputes ≡ d.disputes
    → room bound n d' ≡ room bound n d
room_same bound zero d d' same = refl
room_same bound (suc n) d d' same =
    let first = room_same bound n d d' same in
    let last : room_of bound (lookup n d'.disputes) ≡ room_of bound (lookup n d.disputes) =
      ap (λ k. room_of bound (lookup n k)) same in
    omega (arith, first, last)

room_of-newer :
    (bound : ℕ) (dispute : Dispute) (d : DisputeState)
    → to_number dispute.challenge_cnt ≤ bound
    → (update_dispute_if_newer dispute d).0 ≡ true
    → room_of bound (some dispute) < room_of bound (lookup (to_number dispute.fork_cnt) d.disputes)
unfolding update_dispute_if_newer should_update_dispute
room_of-newer bound dispute d low newer =
    elim (Option-cases (lookup (to_number dispute.fork_cnt) d.disputes)) [
      | inl missing ↦ rw missing (omega arith)
      | inr (x, found) ↦
          let older : to_number x.challenge_cnt < to_number dispute.challenge_cnt = ground arith in
          rw found (omega arith)
    ]

lookup-update :
    (dispute : Dispute) (d : DisputeState) (i : ℕ)
    → (update_dispute_if_newer dispute d).0 ≡ true
    → lookup i (update_dispute_if_newer dispute d).1.disputes
      ≡ (if i == to_number dispute.fork_cnt then some dispute else lookup i d.disputes)
unfolding update_dispute_if_newer
lookup-update dispute d i newer =
    ground (arith, lookup-insert i (to_number dispute.fork_cnt) dispute d.disputes)

-- The forks below the one of the dispute keep their room.
room_apart :
    (bound n : ℕ) (dispute : Dispute) (d : DisputeState)
    → (update_dispute_if_newer dispute d).0 ≡ true
    → n ≤ to_number dispute.fork_cnt
    → room bound n (update_dispute_if_newer dispute d).1 ≡ room bound n d
room_apart bound zero dispute d newer above = refl
room_apart bound (suc n) dispute d newer above =
    let rest = room_apart bound n dispute d newer (omega arith) in
    let same : lookup n (update_dispute_if_newer dispute d).1.disputes ≡ lookup n d.disputes =
      ground (arith, lookup-update dispute d n newer) in
    rw (same, rest) refl

pub room-newer :
    (bound n : ℕ) (dispute : Dispute) (d : DisputeState)
    → to_number dispute.challenge_cnt ≤ bound
    → to_number dispute.fork_cnt < n
    → (update_dispute_if_newer dispute d).0 ≡ true
    → room bound n (update_dispute_if_newer dispute d).1 < room bound n d
room-newer bound zero dispute d low known newer = absurd (omega arith)
room-newer bound (suc n) dispute d low known newer =
    let found = lookup-update dispute d n newer in
    elim (Bool-cases (n == to_number dispute.fork_cnt)) [
      | inl at ↦
          let here : lookup n (update_dispute_if_newer dispute d).1.disputes ≡ some dispute =
            ground arith in
          let same : n ≡ to_number dispute.fork_cnt = ground arith in
          let rest = room_apart bound n dispute d newer (omega arith) in
          let less : room_of bound (some dispute) < room_of bound (lookup n d.disputes) =
            rw same (room_of-newer bound dispute d low newer) in
          rw (here, rest) (omega (arith, less))
      | inr other ↦
          let same : lookup n (update_dispute_if_newer dispute d).1.disputes ≡ lookup n d.disputes =
            ground arith in
          let below : to_number dispute.fork_cnt < n = ground arith in
          let rest = room-newer bound n dispute d low below newer in rw same (omega (arith, rest))
    ]
