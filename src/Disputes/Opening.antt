-- ===== src/Disputes/Opening.antt =====
-- The disputes that a peer opens itself: they end, and mark their fork.
use state_channels_plus.Prelude.{
  ℕ, ◌∷◌, [], ◌≡◌, refl, inl, inr, true, some, List, Result, ok, throw, arith, Result-cases,
}
use state_channels_plus.Prelude.Dict.{lookup-insert}
use state_channels_plus.Data.{Ethers, Bytes, Address}
use state_channels_plus.Agreement.{get_finalized_and_latest_with_votes}
use state_channels_plus.Proofs.{Proof, ProofCoder, Dispute}
use state_channels_plus.Disputes.{
  DisputeState, HandlerState, Contract, set_fork_disputed, is_fork_disputed, add_proof, add_proofs,
  start_dispute, create_new_dispute, create_if_none, open_dispute, create_dispute,
}
use state_channels_plus.Disputes.Room.{enough_rounds, room-enough_rounds}
use state_channels_plus.Disputes.Rechallenge.{
  IsBounded, rechallenge_ends, rechallenge-disputed_forks,
}

pub add_proofs-disputed_forks :
    (g : ℕ) (ps : List Proof) (d : DisputeState)
    → (add_proofs g ps d).disputed_forks ≡ d.disputed_forks
unfolding add_proofs add_proof
add_proofs-disputed_forks g [] d = refl
add_proofs-disputed_forks g (p ∷ ps) d = add_proofs-disputed_forks g ps (add_proof g p d)

module _ (e : Ethers) (coder : ProofCoder) (now : ℕ) {W : Type 0} (contract : Contract W)
    (channel_id : Bytes) (signer_address : Address) where
  create_new_dispute-handler :
      (fork_cnt : ℕ) (p : Address) (n : ℕ) (ps : List Proof) (h : HandlerState W)
      → (create_new_dispute e coder now contract channel_id signer_address fork_cnt p n ps
          h).1.handler
        ≡ h.handler
  unfolding create_new_dispute
  create_new_dispute-handler fork_cnt p n ps h =
      elim (Result-cases (get_finalized_and_latest_with_votes e fork_cnt signer_address h.forks)) [
        | inr (err, thrown) ↦ ground arith
        | inl (votes, found) ↦ ground arith
      ]

  create_if_none-handler :
      (fork_cnt : ℕ) (p : Address) (n : ℕ) (ps : List Proof) (h : HandlerState W)
      → (create_if_none e coder now contract channel_id signer_address fork_cnt p n ps h).1.handler
        ≡ h.handler
  unfolding create_if_none
  create_if_none-handler fork_cnt p n ps h =
      ground (arith, create_new_dispute-handler fork_cnt p n ps h)

  -- What is opened is what the chain reports.
  open_dispute_lem :
      (fork_cnt : ℕ) (p : Address) (n : ℕ) (ps : List Proof) (h : HandlerState W)
      → let (r, h') =
          open_dispute e coder now contract channel_id signer_address fork_cnt p n ps h in
        (h'.handler ≡ start_dispute fork_cnt ps h.handler)
        × ((dispute : Dispute)
            → r ≡ ok dispute
            → dispute ≡ contract.get_dispute channel_id h'.chain)
  unfolding open_dispute
  open_dispute_lem fork_cnt p n ps h =
      let h1 : HandlerState W = record h { handler = start_dispute fork_cnt ps h.handler } in
      let x = create_if_none e coder now contract channel_id signer_address fork_cnt p n ps h1 in
      let same = create_if_none-handler fork_cnt p n ps h1 in
      elim (Result-cases x.0) [
        | inr (err, thrown) ↦ (ground arith, λ dispute opened. absurd (ground arith))
        | inl (_, done) ↦ (ground arith, λ dispute opened. ground arith)
      ]

  -- Whatever the fork, the participant to fold, the proofs and what is known of the fork before, a call of
  -- `createDispute` ends, whatever the contract does in between: with the forks that the contract reports at most
  -- `last_fork` and the challenge counts at most `bound`, fuel for `(last_fork + 1) * (bound + 1) + 1` rounds of
  -- challenges is enough for a result.
  pub create_dispute_ends :
      (last_fork bound fork_cnt : ℕ) (p : Address) (n : ℕ) (ps : List Proof) (h : HandlerState W)
      → IsBounded e coder now contract channel_id signer_address last_fork bound
      → (r : Result (Unit {0}) × HandlerState W) × (create_dispute e coder now contract channel_id
            signer_address
            (enough_rounds last_fork bound)
            fork_cnt
            p
            n
            ps
            h
          ≡ some r)
  unfolding create_dispute
  create_dispute_ends last_fork bound fork_cnt p n ps h b =
      let (r, h') = open_dispute e coder now contract channel_id signer_address fork_cnt p n ps h in
      let (same, reports) = open_dispute_lem fork_cnt p n ps h in
      elim (Result-cases r) [
        | inr (err, thrown) ↦ ((throw err, h'), ground arith)
        | inl (dispute, opened) ↦
            let is_reported = reports dispute opened in
            let (r', ended) =
              rechallenge_ends e coder now contract channel_id signer_address last_fork bound b
                (enough_rounds last_fork bound) dispute h'
                (rw is_reported (b.known_fork channel_id h'.chain))
                (rw is_reported (b.below channel_id h'.chain))
                (room-enough_rounds last_fork bound h'.handler) in
            (r', ground arith)
      ]

  start_dispute_mark :
      (g : ℕ) (ps : List Proof) (d : DisputeState)
      → is_fork_disputed g (start_dispute g ps d) ≡ true
  unfolding start_dispute is_fork_disputed set_fork_disputed
  start_dispute_mark g ps d = ground (
    arith,
    add_proofs-disputed_forks g ps (set_fork_disputed g d),
    lookup-insert g g true d.disputed_forks,
  )

  -- However a call of `createDispute` ends, its fork counts as disputed from then on.
  pub create_dispute-is_fork_disputed :
      (fuel fork_cnt : ℕ) (p : Address) (n : ℕ) (ps : List Proof) (h : HandlerState W)
      (r : Result (Unit {0}) × HandlerState W)
      → create_dispute e coder now contract channel_id signer_address fuel fork_cnt p n ps h
        ≡ some r
      → is_fork_disputed fork_cnt r.1.handler ≡ true
  unfolding create_dispute is_fork_disputed
  create_dispute-is_fork_disputed fuel fork_cnt p n ps h r ended =
      let x = open_dispute e coder now contract channel_id signer_address fork_cnt p n ps h in
      let (same, reports) = open_dispute_lem fork_cnt p n ps h in
      let marked = start_dispute_mark fork_cnt ps h.handler in
      elim (Result-cases x.0) [
        | inr (err, thrown) ↦ ground arith
        | inl (dispute, opened) ↦
            let kept =
              rechallenge-disputed_forks e coder now contract channel_id signer_address fuel dispute
                x.1 r (ground arith) in
            ground arith
      ]
