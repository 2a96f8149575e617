-- ===== src/Agreement/Votes.antt =====
-- Virtual voting: what `getFinalizedAndLatestWithVotes` has collected when it names a state.
use state_channels_plus.Prelude.{
  ℕ, ◌≡◌, refl, inl, inr, true, Option, none, some, List, [], ◌∷◌, suc, get_elem?, ok, >>=-eq-ok,
  arith, ◌≤◌, Bool-cases, Option-cases, Elem,
}
use state_channels_plus.Data.{Ethers, Bytes, Address, ConfirmedBlock}
use state_channels_plus.Data.Blocks.{SignedBy, get_signer_addresses, get_signer_addresses-SignedBy}
use state_channels_plus.SetUtils.{has, difference, is_empty}
use state_channels_plus.SetUtils.Laws.{has-difference, has-is_empty}
use state_channels_plus.AgreementTypes.{Agreement}
use state_channels_plus.Agreement.{Tally, correct_after, confirmed, tally_votes}

module _ (e : Ethers) where
  -- Among the agreements, counted from the last, one that is not older than position `last` is
  -- signed by the address and stands among the votes.
  pub record Voted (ags : List Agreement) (votes : List ConfirmedBlock) (last : ℕ) (a : Address)
      : Type 0 where
    pub position : ℕ
    pub vote : Agreement
    pub stored : get_elem? ags position ≡ some vote
    pub recent : position ≤ last
    pub signed : SignedBy e vote.block vote.block_signatures a
    pub shown : Elem (confirmed e vote) votes

  pub record Certified (ags : List Agreement) (votes : List ConfirmedBlock)
      (required : List Address) (state : Bytes) : Type 0 where
    pub last : ℕ
    pub agreement : Agreement
    pub stored : get_elem? ags last ≡ some agreement
    pub state_of : agreement.encoded_state ≡ state
    pub voted : (a : Address) → has required a ≡ true → Voted ags votes last a

  Voted-cons :
      (ag : Agreement) (ags : List Agreement) (votes : List ConfirmedBlock) (last : ℕ) (a : Address)
      → Voted ags votes last a
      → Voted (ag ∷ ags) votes (suc last) a
  Voted-cons ag ags votes last a v = record {
    position = suc v.position;
    vote = v.vote;
    stored = v.stored;
    recent = omega (arith, v.recent);
    signed = v.signed;
    shown = v.shown;
  }

  Certified-cons :
      (ag : Agreement) (ags : List Agreement) (votes : List ConfirmedBlock)
      (required : List Address) (state : Bytes)
      → Certified ags votes required state
      → Certified (ag ∷ ags) votes required state
  Certified-cons ag ags votes required state c = record {
    last = suc c.last;
    agreement = c.agreement;
    stored = c.stored;
    state_of = c.state_of;
    voted = λ a h. Voted-cons ag ags votes c.last a (c.voted a h);
  }

  -- The votes that the loop has collected are kept.
  tally_votes-keeps :
      (signer : Address) (ags : List Agreement) (correct : Option Bytes)
      (votes : List ConfirmedBlock) (required : List Address) (t : Tally) (v : ConfirmedBlock)
      → tally_votes e signer ags correct votes required ≡ ok t
      → Elem v votes
      → Elem v t.votes
  unfolding tally_votes
  tally_votes-keeps signer [] correct votes required t v h m = (m.0, ground arith)
  tally_votes-keeps signer (ag ∷ ags) correct votes required t v h m =
      let (signers, hs, h') = >>=-eq-ok (get_signer_addresses e ag.block ag.block_signatures) _ h in
      elim (Option-cases (correct_after e signer ag signers correct)) [
        | inl early ↦ tally_votes-keeps signer ags none votes required t v (ground arith) m
        | inr (c, started) ↦ elim (Bool-cases (is_empty (difference required signers))) [
          | inl done ↦ (suc m.0, ground arith)
          | inr more ↦
              tally_votes-keeps signer ags (some c) (confirmed e ag ∷ votes)
                (difference required signers) t v (ground arith) (suc m.0, m.1)
        ]
      ]

  -- The step in which the loop counts the signers of the agreement.
  Certified-count :
      (ag : Agreement) (ags : List Agreement) (votes : List ConfirmedBlock)
      (required signers : List Address) (state : Bytes)
      → get_signer_addresses e ag.block ag.block_signatures ≡ ok signers
      → Elem (confirmed e ag) votes
      → Certified ags votes (difference required signers) state
      → Certified (ag ∷ ags) votes required state
  Certified-count ag ags votes required signers state hs shown c = record {
    last = suc c.last;
    agreement = c.agreement;
    stored = c.stored;
    state_of = c.state_of;
    voted = λ a h. elim (Bool-cases (has signers a)) [
      | inl here ↦ record {
        position = 0;
        vote = ag;
        stored = refl;
        recent = omega arith;
        signed = get_signer_addresses-SignedBy e ag.block ag.block_signatures signers a hs here;
        shown = shown;
      }
      | inr later ↦
          Voted-cons ag ags votes c.last a
            (c.voted a (ground (arith, has-difference required signers a)))
    ];
  }

  Certified-last :
      (ag : Agreement) (ags : List Agreement) (votes : List ConfirmedBlock)
      (required signers : List Address)
      → get_signer_addresses e ag.block ag.block_signatures ≡ ok signers
      → Elem (confirmed e ag) votes
      → is_empty (difference required signers) ≡ true
      → Certified (ag ∷ ags) votes required ag.encoded_state
  Certified-last ag ags votes required signers hs shown done = record {
    last = 0;
    agreement = ag;
    stored = refl;
    state_of = refl;
    voted = λ a h. record {
      position = 0;
      vote = ag;
      stored = refl;
      recent = omega arith;
      signed = get_signer_addresses-SignedBy e ag.block ag.block_signatures signers a hs (
          ground (
            arith,
            has-difference required signers a,
            has-is_empty (difference required signers) a,
          ));
      shown = shown;
    };
  }

  pub tally_votes-Certified :
      (signer : Address) (ags : List Agreement) (correct : Option Bytes)
      (votes : List ConfirmedBlock) (required : List Address) (t : Tally) (state : Bytes)
      → tally_votes e signer ags correct votes required ≡ ok t
      → t.finalized ≡ some state
      → Certified ags t.votes required state
  unfolding tally_votes
  tally_votes-Certified signer [] correct votes required t state h f = absurd (ground arith)
  tally_votes-Certified signer (ag ∷ ags) correct votes required t state h f =
      let (signers, hs, h') = >>=-eq-ok (get_signer_addresses e ag.block ag.block_signatures) _ h in
      elim (Option-cases (correct_after e signer ag signers correct)) [
        | inl early ↦
            Certified-cons ag ags t.votes required state
              (tally_votes-Certified signer ags none votes required t state (ground arith) f)
        | inr (c, started) ↦ elim (Bool-cases (is_empty (difference required signers))) [
          | inl done ↦
              let same : ag.encoded_state ≡ state = ground arith in
              rw (← same) (Certified-last ag ags t.votes required signers hs (0, ground arith) done)
          | inr more ↦
              let rest : tally_votes e signer ags (some c) (confirmed e ag ∷ votes)
                    (difference required signers)
                  ≡ ok t =
                ground arith in
              Certified-count ag ags t.votes required signers state hs
                (tally_votes-keeps signer ags (some c) (confirmed e ag ∷ votes)
                  (difference required signers) t (confirmed e ag) rest (0, refl))
                (tally_votes-Certified signer ags (some c) (confirmed e ag ∷ votes)
                  (difference required signers) t state rest f)
        ]
      ]
