-- ===== src/Validator/Check.antt =====
-- What each flag of `BlockValidator.check` says about the chain.
use state_channels_plus.Prelude.{
  ◌≡◌, ◌≢◌, ◌↔◌, sym, inl, inr, false, none, some, length, get_elem?, at_last, ◌==◌, ok, arith, ◌≤◌,
  ◌-◌, Option-cases, Bool-cases, get_elem?_beyond, get_elem?_within, lt_of_get_elem?,
}
use state_channels_plus.Data.{
  Ethers, Bytes, Block, SignedBlock, AgreementFlag, decode_block, encode_block, get_fork,
  get_height, get_block_author, are_blocks_equal, retrieve_signer_address_block,
}
use state_channels_plus.AgreementTypes.{Agreement, AgreementFork, AgreementState}
use state_channels_plus.Forks.{
  fork_at, get_agreement, get_block, get_agreement_by_block, is_valid_fork_cnt,
}
use state_channels_plus.Forks.Lookup.{fork_at_of_valid, valid_of_fork_at}
use state_channels_plus.Queues.{is_block_queued}
use state_channels_plus.Validator.{is_block_in_chain, is_block_duplicate, check_link, check}

module _ (e : Ethers) where
  -- The hash that the next block of a fork must name as its previous state.
  abbrev pub prior_hash : AgreementFork → Bytes
  prior_hash f = elim (at_last f.agreements) [
    | none ↦ e.keccak256 f.fork_genesis_state_encoded
    | some ag ↦ ag.block.state_hash
  ]

  -- The block stands at the next height of the fork and builds on its latest state.
  pub record Extends (f : AgreementFork) (b : Block) : Type 0 where
    pub at_next_height : get_height b ≡ length f.agreements
    pub builds_on_latest : b.previous_state_hash ≡ prior_hash f

  length-le-height :
      (s : AgreementState) (b : Block) (f : AgreementFork)
      → fork_at s.forks (get_fork b) ≡ some f
      → get_block s.forks (get_fork b) (get_height b) ≡ none
      → length f.agreements ≤ get_height b
  unfolding get_block get_agreement
  length-le-height s b f found free = ground (arith, get_elem?_within f.agreements (get_height b))

  free_of_Extends :
      (s : AgreementState) (b : Block) (f : AgreementFork)
      → fork_at s.forks (get_fork b) ≡ some f
      → Extends f b
      → get_agreement s.forks (get_fork b) (get_height b) ≡ none
  unfolding get_agreement
  free_of_Extends s b f found h = ground (arith, get_elem?_beyond f.agreements (get_height b))

  check_link-ready :
      (s : AgreementState) (b : Block) (f : AgreementFork)
      → fork_at s.forks (get_fork b) ≡ some f
      → get_block s.forks (get_fork b) (get_height b) ≡ none
      → check_link e s b ≡ ok AgreementFlag.ready
      → Extends f b
  unfolding check_link get_block get_agreement
  check_link-ready s b f found free h =
      let ags = f.agreements in
      let n = get_height b in
      let bound : length ags ≤ n = length-le-height s b f found free in
      elim (Bool-cases (n == 0)) [
        | inl genesis ↦ ground (arith, get_elem?_beyond ags (length ags - 1))
        | inr later ↦ elim (Option-cases (get_elem? ags (n - 1))) [
          | inl missing ↦ ground arith
          | inr (prev, stored) ↦
              let within = lt_of_get_elem? ags (n - 1) prev stored in
              let e1 : length ags ≡ n = omega arith in
              let last : get_elem? ags (length ags - 1) ≡ some prev = rw e1 stored in
              record { at_next_height = sym e1; builds_on_latest = ground arith }
        ]
      ]

  Extends-check_link :
      (s : AgreementState) (b : Block) (f : AgreementFork)
      → fork_at s.forks (get_fork b) ≡ some f
      → Extends f b
      → check_link e s b ≡ ok AgreementFlag.ready
  unfolding check_link get_block get_agreement
  Extends-check_link s b f found h =
      let ags = f.agreements in
      let hh = h.at_next_height in
      let hb = h.builds_on_latest in
      elim (Bool-cases (get_height b == 0)) [
        | inl genesis ↦ ground (arith, get_elem?_beyond ags (length ags - 1))
        | inr later ↦
            let (prev, stored) = get_elem?_within ags (length ags - 1) (ground arith) in
            let same : get_elem? ags (get_height b - 1) ≡ some prev = rw hh stored in ground arith
      ]

  -- On an authentic block that does not wait in the queue, the check says READY exactly when the
  -- block's fork is known and the block extends it.
  pub check-ready_iff :
      (s : AgreementState) (signed : SignedBlock) (b : Block)
      → decode_block e signed.encoded_block ≡ ok b
      → retrieve_signer_address_block e b signed.signature ≡ ok (get_block_author b)
      → is_block_queued e b s.block_q ≡ false
      → (check e s signed ≡ ok AgreementFlag.ready)
        ↔ ((f : AgreementFork) × (fork_at s.forks (get_fork b) ≡ some f) × Extends f b)
  unfolding check is_block_duplicate is_block_in_chain get_block get_agreement_by_block
  check-ready_iff s signed b hd hs hq = (
    λ h. elim (Bool-cases (is_valid_fork_cnt s.forks (get_fork b))) [
      | inl known ↦
          let (f, found) = fork_at_of_valid s.forks (get_fork b) known in
          (f, found, check_link-ready s b f found (ground arith) (ground arith))
      | inr unknown ↦ absurd (ground arith)
    ],
    λ w.
        let none_there = free_of_Extends s b w.0 w.1 w.2 in
        ground (
          arith,
          valid_of_fork_at s.forks (get_fork b) w.0 w.1,
          Extends-check_link s b w.0 w.1 w.2,
        ),
  )

  -- DOUBLE_SIGN is said only where the chain holds another block of the same author at the same fork
  -- and height, with a different encoding, and the incoming block carries its author's signature.
  pub check-double_sign :
      (s : AgreementState) (signed : SignedBlock) (b : Block)
      → decode_block e signed.encoded_block ≡ ok b
      → check e s signed ≡ ok AgreementFlag.double_sign
      → (ag : Agreement) × (get_agreement s.forks (get_fork b) (get_height b) ≡ some ag)
        × (get_block_author ag.block ≡ get_block_author b)
        × (encode_block e ag.block ≢ encode_block e b)
        × (retrieve_signer_address_block e b signed.signature ≡ ok (get_block_author b))
  unfolding check check_link is_block_duplicate is_block_in_chain get_block get_agreement_by_block
      are_blocks_equal
  check-double_sign s signed b hd h =
      elim (Option-cases (get_agreement s.forks (get_fork b) (get_height b))) [
        | inl free ↦ absurd (ground arith)
        | inr (ag, stored) ↦ (ag, stored, ground arith, ground arith, ground arith)
      ]
