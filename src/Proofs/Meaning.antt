-- ===== src/Proofs/Meaning.antt =====
-- What each kind of proof says against a dispute, apart from the code that checks it.
use state_channels_plus.Prelude.{
  ℕ, zero, suc, ◌≡◌, ◌≢◌, ◌<◌, ◌↔◌, inl, inr, true, false, some, List, [], ◌∷◌, at_last, get_elem?,
  ok, arith, Bool, Bool-cases, Option-cases, Result-cases,
}
use state_channels_plus.Data.{
  Ethers, Bytes, Block, ConfirmedBlock, decode_block, get_height, get_timestamp, get_block_author,
}
use state_channels_plus.SetUtils.{has}
use state_channels_plus.Proofs.Types.{
  Proof, ProofType, ProofCoder, FoldRechallengeProof, DoubleSign, DoubleSignProof,
  IncorrectDataProof, NewerStateProof, FoldPriorBlockProof, BlockTooFarInFutureProof, Dispute,
  BigNumberish, number, bigint, to_number, is_number,
}
use state_channels_plus.Proofs.Valid.{
  zero_address, is_fold_rechallenge_valid, some_not_slashed, is_double_sign_valid,
  is_incorrect_data_valid, is_newer_state_valid, is_fold_prior_block_valid,
  is_block_too_far_in_future_valid, validator,
}

module _ (e : Ethers) (coder : ProofCoder) (now : ℕ) (d : Dispute) where
  -- Bytes that are a block whose author has not been slashed.
  abbrev pub Accuses : Bytes → Block → Type 0
  Accuses bytes b =
      (decode_block e bytes ≡ ok b) × (has d.slashed_participants (get_block_author b) ≡ false)

  -- A fold rechallenge shows a block of the timed-out participant at the disputed height, which is a JavaScript number.
  -- A double sign, or incorrect data, accuses somebody not yet slashed: the author of a first block, or of the second
  -- block. A newer state is a block of the disputer, not yet slashed, above the last vote. A prior block lies below the
  -- disputed height, and somebody has timed out. A block too far in the future has a timestamp after this one, and an
  -- author not yet slashed. There are no proofs of other types.
  abbrev pub Speaks : ProofType → Bytes → Type 0
  Speaks ProofType.fold_rechallenge x =
      (q : FoldRechallengeProof) × (coder.decode_fold_rechallenge x ≡ some q)
      × (b : Block) × (decode_block e q.encoded_block ≡ ok b)
      × (d.folded_transaction_cnt ≡ number (get_height b))
      × (get_block_author b ≡ d.timedout_participant)
  Speaks ProofType.double_sign x =
      (q : DoubleSignProof) × (coder.decode_double_sign x ≡ some q)
      × (i : ℕ) × (s : DoubleSign) × (b : Block) × (get_elem? q.double_signs i ≡ some s)
      × Accuses s.block1.encoded_block b
  Speaks ProofType.incorrect_data x =
      (q : IncorrectDataProof) × (coder.decode_incorrect_data x ≡ some q)
      × (b : Block) × Accuses q.block2.encoded_block b
  Speaks ProofType.newer_state x =
      (q : NewerStateProof) × (coder.decode_newer_state x ≡ some q)
      × (b : Block) × (vote : ConfirmedBlock) × (latest : Block) × Accuses q.encoded_block b
      × (at_last d.virtual_voting_blocks ≡ some vote)
      × (decode_block e vote.encoded_block ≡ ok latest)
      × (get_block_author b ≡ d.posted_state_disputer)
      × (get_height latest < get_height b)
  Speaks ProofType.fold_prior_block x =
      (q : FoldPriorBlockProof) × (coder.decode_fold_prior_block x ≡ some q)
      × (q.transaction_cnt < to_number d.folded_transaction_cnt)
      × (d.timedout_participant ≢ zero_address)
  Speaks ProofType.block_too_far_in_future x =
      (q : BlockTooFarInFutureProof) × (coder.decode_block_too_far_in_future x ≡ some q)
      × (b : Block) × Accuses q.block1.encoded_block b
      × (now < get_timestamp b)
  Speaks _ x = true ≡ false

  number_of : (n : ℕ) (x : BigNumberish) → is_number n x ≡ true → x ≡ number n
  number_of n (number m) h = ground arith
  number_of n (bigint m) h = absurd (ground arith)

  fold_rechallenge-Speaks :
      (p : Proof) (v : Bool)
      → is_fold_rechallenge_valid e coder p d ≡ ok v
      → (v ≡ true) ↔ Speaks ProofType.fold_rechallenge p.encoded_proof
  unfolding is_fold_rechallenge_valid
  fold_rechallenge-Speaks p v h =
      elim (Option-cases (coder.decode_fold_rechallenge p.encoded_proof)) [
        | inl garbage ↦ absurd (ground arith)
        | inr (q, decoded) ↦ elim (Result-cases (decode_block e q.encoded_block)) [
          | inr (err, thrown) ↦ absurd (ground arith)
          | inl (b, read) ↦ (
            λ yes. (
              q,
              decoded,
              b,
              read,
              number_of (get_height b) d.folded_transaction_cnt (ground arith),
              ground arith,
            ),
            λ s. let (q', decoded', b', read', height, author) = s in ground arith,
          )
        ]
      ]

  -- An accusation in the list that is not the first one.
  accused_later :
      (x : DoubleSign) (ds : List DoubleSign) (b : Block) (i : ℕ) (s : DoubleSign) (c : Block)
      → decode_block e x.block1.encoded_block ≡ ok b
      → has d.slashed_participants (get_block_author b) ≡ true
      → get_elem? (x ∷ ds) i ≡ some s
      → Accuses s.block1.encoded_block c
      → (j : ℕ) × (t : DoubleSign) × (f : Block) × (get_elem? ds j ≡ some t)
        × Accuses t.block1.encoded_block f
  accused_later x ds b zero s c read slashed at a = absurd (ground (arith, a.0, a.1))
  accused_later x ds b (suc i) s c read slashed at a = (i, s, c, ground arith, a)

  some_not_slashed-Accuses :
      (ds : List DoubleSign) (v : Bool)
      → some_not_slashed e coder ds d ≡ ok v
      → (v ≡ true) ↔ (
          (i : ℕ) × (s : DoubleSign) × (b : Block) × (get_elem? ds i ≡ some s)
          × Accuses s.block1.encoded_block b)
  unfolding some_not_slashed
  some_not_slashed-Accuses [] v h =
      (λ yes. absurd (ground arith), λ s. let (i, x, b, at, a) = s in absurd (ground arith))
  some_not_slashed-Accuses (x ∷ ds) v h =
      elim (Result-cases (decode_block e x.block1.encoded_block)) [
        | inr (err, thrown) ↦ absurd (ground arith)
        | inl (b, read) ↦ elim (Bool-cases (has d.slashed_participants (get_block_author b))) [
          | inr free ↦ (λ yes. (0, x, b, ground arith, (read, free)), λ s. ground arith)
          | inl slashed ↦
              let (there, back) = some_not_slashed-Accuses ds v (ground arith) in
              (
                λ yes. let (i, y, c, at, a) = there yes in (suc i, y, c, ground arith, a),
                λ s.
                    let (i, y, c, at, a) = s in back (accused_later x ds b i y c read slashed at a),
              )
        ]
      ]

  double_sign-Speaks :
      (p : Proof) (v : Bool)
      → is_double_sign_valid e coder p d ≡ ok v
      → (v ≡ true) ↔ Speaks ProofType.double_sign p.encoded_proof
  unfolding is_double_sign_valid
  double_sign-Speaks p v h = elim (Option-cases (coder.decode_double_sign p.encoded_proof)) [
    | inl garbage ↦ absurd (ground arith)
    | inr (q, decoded) ↦
        let (there, back) = some_not_slashed-Accuses q.double_signs v (ground arith) in
        (
          λ yes. let (i, x, b, at, a) = there yes in (q, decoded, i, x, b, at, a),
          λ s.
              let (q', decoded', i, x, b, at, a) = s in
              let same : q' ≡ q = ground arith in back (i, x, b, ground arith, a),
        )
  ]

  incorrect_data-Speaks :
      (p : Proof) (v : Bool)
      → is_incorrect_data_valid e coder p d ≡ ok v
      → (v ≡ true) ↔ Speaks ProofType.incorrect_data p.encoded_proof
  unfolding is_incorrect_data_valid
  incorrect_data-Speaks p v h = elim (Option-cases (coder.decode_incorrect_data p.encoded_proof)) [
    | inl garbage ↦ absurd (ground arith)
    | inr (q, decoded) ↦ elim (Result-cases (decode_block e q.block2.encoded_block)) [
      | inr (err, thrown) ↦ absurd (ground arith)
      | inl (b, read) ↦ (
        λ yes. (q, decoded, b, (read, ground arith)),
        λ s. let (q', decoded', b', a) = s in ground (arith, a.0, a.1),
      )
    ]
  ]

  newer_state-Speaks :
      (p : Proof) (v : Bool)
      → is_newer_state_valid e coder p d ≡ ok v
      → (v ≡ true) ↔ Speaks ProofType.newer_state p.encoded_proof
  unfolding is_newer_state_valid
  newer_state-Speaks p v h = elim (Option-cases (coder.decode_newer_state p.encoded_proof)) [
    | inl garbage ↦ absurd (ground arith)
    | inr (q, decoded) ↦ elim (Result-cases (decode_block e q.encoded_block)) [
      | inr (err, thrown) ↦ absurd (ground arith)
      | inl (b, read) ↦ elim (Option-cases (at_last d.virtual_voting_blocks)) [
        | inl unvoted ↦ (
          λ yes. absurd (ground arith),
          λ s.
              let (q', decoded', b', vote, latest, a, last, seen, by, above) = s in
              absurd (ground arith),
        )
        | inr (vote, last) ↦ elim (Result-cases (decode_block e vote.encoded_block)) [
          | inr (err, thrown) ↦ absurd (ground arith)
          | inl (latest, seen) ↦ (
            λ yes. (
              q,
              decoded,
              b,
              vote,
              latest,
              (read, ground arith),
              last,
              seen,
              ground arith,
              ground arith,
            ),
            λ s.
                let (q', decoded', b', vote', latest', a, last', seen', by, above) = s in
                let same_block : b' ≡ b = ground (arith, a.0) in
                let same_vote : latest' ≡ latest = ground arith in ground (arith, a.1),
          )
        ]
      ]
    ]
  ]

  fold_prior_block-Speaks :
      (p : Proof) (v : Bool)
      → is_fold_prior_block_valid e coder p d ≡ ok v
      → (v ≡ true) ↔ Speaks ProofType.fold_prior_block p.encoded_proof
  unfolding is_fold_prior_block_valid
  fold_prior_block-Speaks p v h =
      elim (Option-cases (coder.decode_fold_prior_block p.encoded_proof)) [
        | inl garbage ↦ absurd (ground arith)
        | inr (q, decoded) ↦ (
          λ yes. (q, decoded, ground arith, ground arith),
          λ s. let (q', decoded', below, somebody) = s in ground arith,
        )
      ]

  block_too_far_in_future-Speaks :
      (p : Proof) (v : Bool)
      → is_block_too_far_in_future_valid e coder now p d ≡ ok v
      → (v ≡ true) ↔ Speaks ProofType.block_too_far_in_future p.encoded_proof
  unfolding is_block_too_far_in_future_valid
  block_too_far_in_future-Speaks p v h =
      elim (Option-cases (coder.decode_block_too_far_in_future p.encoded_proof)) [
        | inl garbage ↦ absurd (ground arith)
        | inr (q, decoded) ↦ elim (Result-cases (decode_block e q.block1.encoded_block)) [
          | inr (err, thrown) ↦ absurd (ground arith)
          | inl (b, read) ↦ (
            λ yes. (q, decoded, b, (read, ground arith), ground arith),
            λ s. let (q', decoded', b', a, ahead) = s in ground (arith, a.0, a.1),
          )
        ]
      ]

  pub validator-Speaks :
      (t : ProofType) (x : Bytes) (v : Bool)
      → validator e coder now t (record { proof_type = t; encoded_proof = x }) d ≡ ok v
      → (v ≡ true) ↔ Speaks t x
  unfolding validator
  validator-Speaks ProofType.fold_rechallenge x v h =
      fold_rechallenge-Speaks
        (record { proof_type = ProofType.fold_rechallenge; encoded_proof = x }) v h
  validator-Speaks ProofType.double_sign x v h =
      double_sign-Speaks (record { proof_type = ProofType.double_sign; encoded_proof = x }) v h
  validator-Speaks ProofType.incorrect_data x v h =
      incorrect_data-Speaks (record { proof_type = ProofType.incorrect_data; encoded_proof = x }) v
        h
  validator-Speaks ProofType.newer_state x v h =
      newer_state-Speaks (record { proof_type = ProofType.newer_state; encoded_proof = x }) v h
  validator-Speaks ProofType.fold_prior_block x v h =
      fold_prior_block-Speaks
        (record { proof_type = ProofType.fold_prior_block; encoded_proof = x }) v h
  validator-Speaks ProofType.block_too_far_in_future x v h =
      block_too_far_in_future-Speaks
        (record { proof_type = ProofType.block_too_far_in_future; encoded_proof = x }) v h
  validator-Speaks ProofType.join_channel x v h = absurd (ground arith)
  validator-Speaks ProofType.leave_channel_force x v h = absurd (ground arith)
