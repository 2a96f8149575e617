-- ===== src/Disputes/Rechallenge.antt =====
-- The loop of challenges: it ends, and it never forgets that a fork is disputed.
use state_channels_plus.Prelude.{
  ℕ, ◌+◌, ◌≡◌, ◌<◌, ◌≤◌, ◌⊎◌, zero, suc, sym, ap, ◌∙◌, inl, inr, true, some, List, ◌==◌, Result, ok,
  throw, Error, arith, Bool-cases, Result-cases,
}
use state_channels_plus.Prelude.Dict.{lookup-insert}
use state_channels_plus.Data.{Ethers, Bytes, Address}
use state_channels_plus.Proofs.{Proof, ProofCoder, Dispute, to_number}
use state_channels_plus.Disputes.Room.{
  room, enough_rounds, room-enough_rounds, room_same, room-newer,
}
use state_channels_plus.Disputes.{
  DisputeState, HandlerState, Contract, set_fork_disputed, is_fork_disputed, add_proof,
  update_dispute_if_newer, extract_timeout_proof, extract_proofs, try_challenge, is_empty_list,
  rechallenge, on_dispute,
}

pub update-disputed_forks :
    (dispute : Dispute) (d : DisputeState)
    → (update_dispute_if_newer dispute d).1.disputed_forks ≡ d.disputed_forks
unfolding update_dispute_if_newer
update-disputed_forks dispute d = ground arith

module _ (e : Ethers) (coder : ProofCoder) (now : ℕ) {W : Type 0} where
  -- What the collection of proofs leaves alone.
  pub extract_proofs-handler :
      (dispute : Dispute) (h : HandlerState W)
      → ((extract_proofs e coder now dispute h).1.handler.disputed_forks ≡ h.handler.disputed_forks)
        × ((extract_proofs e coder now dispute h).1.handler.disputes ≡ h.handler.disputes)
  unfolding extract_proofs extract_timeout_proof add_proof
  extract_proofs-handler dispute h = ground arith

  module _ (contract : Contract W) (channel_id : Bytes) (signer_address : Address) where
    -- Whatever the state of the chain, the contract reports forks and challenge counts up to these bounds.
    pub record IsBounded (last_fork bound : ℕ) : Type 0 where
      pub known_fork :
          (channel : Bytes) (w : W)
          → to_number (contract.get_dispute channel w).fork_cnt ≤ last_fork
      pub below :
          (channel : Bytes) (w : W)
          → to_number (contract.get_dispute channel w).challenge_cnt ≤ bound

    -- A round of the loop ends the call, or hands over to the next round with the dispute taken over.
    record NextRound (fuel : ℕ) (dispute : Dispute) (h : HandlerState W) : Type 0 where
      after : HandlerState W
      was_newer : (update_dispute_if_newer dispute h.handler).0 ≡ true
      kept : after.handler.disputes ≡ (update_dispute_if_newer dispute h.handler).1.disputes
      still_disputed : after.handler.disputed_forks ≡ h.handler.disputed_forks
      continues :
          rechallenge e coder now contract channel_id signer_address (suc fuel) dispute h
          ≡ rechallenge e coder now contract channel_id signer_address fuel
              (contract.get_dispute dispute.channel_id after.chain)
              after

    try_challenge-handler :
        (dispute : Dispute) (ps : List Proof) (h : HandlerState W)
        → (try_challenge e coder now contract channel_id signer_address dispute ps h).handler
          ≡ h.handler
    unfolding try_challenge
    try_challenge-handler dispute ps h = ground arith

    round :
        (fuel : ℕ) (dispute : Dispute) (h : HandlerState W)
        → ((r : Result (Unit {0}) × HandlerState W) × (rechallenge e coder now contract channel_id
                signer_address
                (suc fuel)
                dispute
                h
              ≡ some r)
            × (r.1.handler.disputed_forks ≡ h.handler.disputed_forks))
          ⊎ NextRound fuel dispute h
    unfolding rechallenge
    round fuel dispute h =
        let u = update_dispute_if_newer dispute h.handler in
        let h1 : HandlerState W = record h { handler = u.1 } in
        let x = extract_proofs e coder now dispute h1 in
        let same1 = update-disputed_forks dispute h.handler in
        let same2 : x.1.handler.disputed_forks ≡ h.handler.disputed_forks =
          (extract_proofs-handler dispute h1).0 ∙ same1 in
        elim (Bool-cases u.0) [
          | inr older ↦ inl ((ok tt, h1), ground arith, same1)
          | inl newer ↦ elim (Result-cases x.0) [
            | inr (err, thrown) ↦ inl ((throw err, x.1), ground arith, same2)
            | inl (ps, found) ↦ elim (Bool-cases (is_empty_list ps)) [
              | inl nothing ↦ inl ((ok tt, x.1), ground arith, same2)
              | inr some_proof ↦
                  let h3 =
                    try_challenge e coder now contract channel_id signer_address dispute ps x.1 in
                  let next = contract.get_dispute dispute.channel_id h3.chain in
                  let same3 : h3.handler.disputed_forks ≡ h.handler.disputed_forks =
                    ap (λ (d : DisputeState). d.disputed_forks)
                      (try_challenge-handler dispute ps x.1)
                    ∙ same2 in
                  elim (Bool-cases
                    (to_number next.challenge_cnt == to_number dispute.challenge_cnt)) [
                      | inl stuck ↦ inl ((throw Error.challenge_failed, h3), ground arith, same3)
                      | inr moved ↦ inr (record {
                        after = h3;
                        was_newer = newer;
                        kept =
                            ap (λ (d : DisputeState). d.disputes)
                              (try_challenge-handler dispute ps x.1)
                            ∙ (extract_proofs-handler dispute h1).1;
                        still_disputed = same3;
                        continues = ground arith;
                      })
                    ]
            ]
          ]
        ]

    -- A round has taken over a newer dispute, so that it has made room smaller.
    room-NextRound :
        (bound n fuel : ℕ) (dispute : Dispute) (h : HandlerState W) (r : NextRound fuel dispute h)
        → to_number dispute.challenge_cnt ≤ bound
        → to_number dispute.fork_cnt < n
        → room bound n r.after.handler < room bound n h.handler
    room-NextRound bound n fuel dispute h r low known =
        let less = room-newer bound n dispute h.handler low known r.was_newer in
        let same =
          room_same bound n (update_dispute_if_newer dispute h.handler).1 r.after.handler r.kept in
        omega (arith, less, same)

    pub rechallenge_ends :
        (last_fork bound : ℕ)
        → IsBounded last_fork bound
        → (fuel : ℕ) (dispute : Dispute) (h : HandlerState W)
        → to_number dispute.fork_cnt ≤ last_fork
        → to_number dispute.challenge_cnt ≤ bound
        → room bound (last_fork + 1) h.handler < fuel
        → (r : Result (Unit {0}) × HandlerState W) × (rechallenge e coder now contract channel_id
              signer_address fuel dispute h
            ≡ some r)
    rechallenge_ends last_fork bound b zero dispute h hf hb enough = absurd (omega arith)
    rechallenge_ends last_fork bound b (suc fuel) dispute h hf hb enough =
        elim (round fuel dispute h) [
          | inl (r, ended, same) ↦ (r, ended)
          | inr n ↦
              let next = contract.get_dispute dispute.channel_id n.after.chain in
              let less = room-NextRound bound (last_fork + 1) fuel dispute h n hb (omega arith) in
              let (r, e') =
                rechallenge_ends last_fork bound b fuel next n.after
                  (b.known_fork dispute.channel_id n.after.chain)
                  (b.below dispute.channel_id n.after.chain) (omega arith) in
              (r, n.continues ∙ e')
        ]

    -- The dispute handler answers a dispute of the chain in finitely many challenges, whatever the contract does in
    -- between: with the forks that the contract reports at most `last_fork` and the challenge counts at most `bound`,
    -- fuel for `(last_fork + 1) * (bound + 1) + 1` rounds is enough for a result.
    pub on_dispute_ends :
        (last_fork bound : ℕ) (dispute : Dispute) (h : HandlerState W)
        → IsBounded last_fork bound
        → to_number dispute.fork_cnt ≤ last_fork
        → to_number dispute.challenge_cnt ≤ bound
        → (r : Result (Unit {0}) × HandlerState W) × (on_dispute e coder now contract channel_id
              signer_address
              (enough_rounds last_fork bound)
              dispute
              h
            ≡ some r)
    unfolding on_dispute
    on_dispute_ends last_fork bound dispute h b hf hb =
        rechallenge_ends last_fork bound b (enough_rounds last_fork bound) dispute _ hf hb
          (room-enough_rounds last_fork bound _)

    pub rechallenge-disputed_forks :
        (fuel : ℕ) (dispute : Dispute) (h : HandlerState W) (r : Result (Unit {0}) × HandlerState W)
        → rechallenge e coder now contract channel_id signer_address fuel dispute h ≡ some r
        → r.1.handler.disputed_forks ≡ h.handler.disputed_forks
    unfolding rechallenge
    rechallenge-disputed_forks zero dispute h r ended = absurd (ground arith)
    rechallenge-disputed_forks (suc fuel) dispute h r ended = elim (round fuel dispute h) [
      | inl (r', ended', same) ↦ let equal : r' ≡ r = cc in rw (← equal) same
      | inr n ↦
          rechallenge-disputed_forks fuel (contract.get_dispute dispute.channel_id n.after.chain)
            n.after r (sym n.continues ∙ ended)
          ∙ n.still_disputed
    ]

    -- However the answer to a dispute ends, its fork counts as disputed from then on.
    pub on_dispute-is_fork_disputed :
        (fuel : ℕ) (dispute : Dispute) (h : HandlerState W) (r : Result (Unit {0}) × HandlerState W)
        → on_dispute e coder now contract channel_id signer_address fuel dispute h ≡ some r
        → is_fork_disputed (to_number dispute.fork_cnt) r.1.handler ≡ true
    unfolding on_dispute is_fork_disputed set_fork_disputed
    on_dispute-is_fork_disputed fuel dispute h r ended =
        let f = to_number dispute.fork_cnt in
        let same = rechallenge-disputed_forks fuel dispute _ r ended in
        rw same (rw (lookup-insert f f true h.handler.disputed_forks) (ground arith))
