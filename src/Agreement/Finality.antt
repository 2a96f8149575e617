-- ===== src/Agreement/Finality.antt =====
-- When `getFinalizedAndLatestWithVotes` names a state as finalized, the whole threshold has signed
-- it or something later, and the votes that it returns show that.
use state_channels_plus.Prelude.{
  ℕ, ◌≡◌, ◌⊎◌, inl, inr, true, none, some, List, reverse, ok, arith, ◌≤◌, Option-cases, Elem,
  get_elem?-reverse, Result-cases, [],
}
use state_channels_plus.Data.{Ethers, Bytes, Address, ConfirmedBlock}
use state_channels_plus.Data.Blocks.{SignedBy}
use state_channels_plus.SetUtils.{has, from_array}
use state_channels_plus.SetUtils.Laws.{has-from_array}
use state_channels_plus.AgreementTypes.{Agreement, AgreementFork, Forks}
use state_channels_plus.Forks.{fork_at, get_agreement, agreements_backward}
use state_channels_plus.Agreement.{
  LatestVotes, confirmed, tally_votes, get_finalized_and_latest_with_votes,
}
use state_channels_plus.Agreement.Votes.{Certified, tally_votes-Certified}

module _ (e : Ethers) where
  -- The fork holds an agreement with the state, and each address of the threshold has signed the block
  -- of that agreement or of a later one of the fork, which is among the votes with its signatures.
  pub record IsFinal (forks : Forks) (fork_cnt : ℕ) (threshold : List Address)
      (votes : List ConfirmedBlock) (state : Bytes) : Type 0 where
    pub height : ℕ
    pub agreement : Agreement
    pub stored : get_agreement forks fork_cnt height ≡ some agreement
    pub state_of : agreement.encoded_state ≡ state
    pub approved :
        (a : Address)
        → has threshold a ≡ true
        → (k : ℕ) × (ag : Agreement) × (get_agreement forks fork_cnt k ≡ some ag)
          × (height ≤ k)
          × SignedBy e ag.block ag.block_signatures a
          × Elem (confirmed e ag) votes

  Certified-IsFinal :
      (forks : Forks) (fork_cnt : ℕ) (f : AgreementFork) (votes : List ConfirmedBlock)
      (state : Bytes)
      → fork_at forks fork_cnt ≡ some f
      → Certified e (reverse f.agreements) votes (from_array f.addresses_in_threshold) state
      → IsFinal forks fork_cnt f.addresses_in_threshold votes state
  unfolding get_agreement
  Certified-IsFinal forks fork_cnt f votes state found c =
      let (j, at, je) = get_elem?-reverse f.agreements c.last c.agreement c.stored in
      record {
        height = j;
        agreement = c.agreement;
        stored = ground arith;
        state_of = c.state_of;
        approved = λ a h.
            let v = c.voted a (ground (arith, has-from_array f.addresses_in_threshold a)) in
            let (k, atk, ke) = get_elem?-reverse f.agreements v.position v.vote v.stored in
            (k, v.vote, ground arith, omega (arith, v.recent), v.signed, v.shown);
      }

  -- The finalized state that the manager reports is the genesis state of the fork, or a state of the
  -- fork that every address of its threshold has signed, it or a later one, by the votes reported.
  pub get_finalized_and_latest_with_votes-IsFinal :
      (forks : Forks) (fork_cnt : ℕ) (signer : Address) (f : AgreementFork) (r : LatestVotes)
      → fork_at forks fork_cnt ≡ some f
      → get_finalized_and_latest_with_votes e fork_cnt signer forks ≡ ok r
      → (r.encoded_latest_finalized_state ≡ f.fork_genesis_state_encoded)
        ⊎ IsFinal forks fork_cnt f.addresses_in_threshold r.virtual_voting_blocks
            r.encoded_latest_finalized_state
  unfolding get_finalized_and_latest_with_votes agreements_backward
  get_finalized_and_latest_with_votes-IsFinal forks fork_cnt signer f r found h =
      let ags = reverse f.agreements in
      let required = from_array f.addresses_in_threshold in
      elim (Result-cases (tally_votes e signer ags none [] required)) [
        | inr (err, thrown) ↦ absurd (ground arith)
        | inl (t, counted) ↦ elim (Option-cases t.finalized) [
          | inl unfinished ↦ inl (ground arith)
          | inr (state, closed) ↦
              let ev : r.virtual_voting_blocks ≡ t.votes = ground arith in
              let es : r.encoded_latest_finalized_state ≡ state = ground arith in
              inr (
                rw (ev, es)
                  (Certified-IsFinal forks fork_cnt f t.votes state found
                    (tally_votes-Certified e signer ags none [] required t state counted closed)))
        ]
      ]
