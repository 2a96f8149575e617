-- ===== src/Proofs/Valid.antt =====
-- The validators of proofs against a dispute, and the filter over a list of proofs.
use state_channels_plus.Prelude.{
  ℕ, Bool, true, false, not, ◌&&◌, none, some, List, [], ◌∷◌, ◌==◌, ltb, at_last, if◌then◌else◌,
  Result, ok, throw, Error, or_throw, ◌>>=◌,
}
use state_channels_plus.Data.{
  Ethers, Address, decode_block, get_height, get_timestamp, get_block_author,
}
use state_channels_plus.SetUtils.{has}
use state_channels_plus.Proofs.Types.{
  Proof, ProofType, ProofCoder, DoubleSign, Dispute, to_number, is_number,
}

-- `ethers.ZeroAddress`
abbrev pub zero_address : Address
zero_address = 0

module _ (e : Ethers) (coder : ProofCoder) where
  unfoldable pub is_fold_rechallenge_valid : Proof → Dispute → Result Bool
  is_fold_rechallenge_valid proof dispute = do
    p ← or_throw (coder.decode_fold_rechallenge proof.encoded_proof) Error.bad_encoding
    b ← decode_block e p.encoded_block
    ok (
        is_number (get_height b) dispute.folded_transaction_cnt
        && get_block_author b == dispute.timedout_participant)

  -- The loop of `doubleSigns.some(…)`, with the throw of its decoding.
  unfoldable pub some_not_slashed : List DoubleSign → Dispute → Result Bool
  some_not_slashed [] dispute = ok false
  some_not_slashed (d ∷ ds) dispute = do
    b ← decode_block e d.block1.encoded_block
    if not (has dispute.slashed_participants (get_block_author b))
        then ok true
        else some_not_slashed ds dispute

  unfoldable pub is_double_sign_valid : Proof → Dispute → Result Bool
  unfolding some_not_slashed
  is_double_sign_valid proof dispute = do
    p ← or_throw (coder.decode_double_sign proof.encoded_proof) Error.bad_encoding
    some_not_slashed p.double_signs dispute

  unfoldable pub is_incorrect_data_valid : Proof → Dispute → Result Bool
  is_incorrect_data_valid proof dispute = do
    p ← or_throw (coder.decode_incorrect_data proof.encoded_proof) Error.bad_encoding
    b ← decode_block e p.block2.encoded_block
    ok (not (has dispute.slashed_participants (get_block_author b)))

  unfoldable pub is_newer_state_valid : Proof → Dispute → Result Bool
  is_newer_state_valid proof dispute = do
    p ← or_throw (coder.decode_newer_state proof.encoded_proof) Error.bad_encoding
    b ← decode_block e p.encoded_block
    elim (at_last dispute.virtual_voting_blocks) [
      | none ↦ ok false
      | some vote ↦ do
        latest ← decode_block e vote.encoded_block
        ok (
            not (has dispute.slashed_participants (get_block_author b))
            && (get_block_author b == dispute.posted_state_disputer
                && ltb (get_height latest) (get_height b)))
    ]

  unfoldable pub is_fold_prior_block_valid : Proof → Dispute → Result Bool
  is_fold_prior_block_valid proof dispute = do
    p ← or_throw (coder.decode_fold_prior_block proof.encoded_proof) Error.bad_encoding
    ok (
        ltb p.transaction_cnt (to_number dispute.folded_transaction_cnt)
        && not (dispute.timedout_participant == zero_address))

  -- `now` is the value of `Clock.getTimeInSeconds()`.
  unfoldable pub is_block_too_far_in_future_valid : ℕ → Proof → Dispute → Result Bool
  is_block_too_far_in_future_valid now proof dispute = do
    p ← or_throw (coder.decode_block_too_far_in_future proof.encoded_proof) Error.bad_encoding
    b ← decode_block e p.block1.encoded_block
    ok (ltb now (get_timestamp b) && not (has dispute.slashed_participants (get_block_author b)))

  -- `validatorMap`, and the call of the entry; a type with no entry throws.
  unfoldable pub validator : ℕ → ProofType → Proof → Dispute → Result Bool
  unfolding is_fold_rechallenge_valid is_double_sign_valid is_incorrect_data_valid
      is_newer_state_valid is_fold_prior_block_valid is_block_too_far_in_future_valid
  validator now ProofType.fold_rechallenge = is_fold_rechallenge_valid
  validator now ProofType.double_sign = is_double_sign_valid
  validator now ProofType.incorrect_data = is_incorrect_data_valid
  validator now ProofType.newer_state = is_newer_state_valid
  validator now ProofType.fold_prior_block = is_fold_prior_block_valid
  validator now ProofType.block_too_far_in_future = is_block_too_far_in_future_valid now
  validator now _ = λ proof dispute. throw Error.unknown_proof_type

  -- No proofs at all (`undefined`) is the empty list.
  unfoldable pub filter_valid_proofs : ℕ → Dispute → List Proof → Result (List Proof)
  unfolding validator
  filter_valid_proofs now dispute [] = ok []
  filter_valid_proofs now dispute (p ∷ ps) = do
    valid ← validator now p.proof_type p dispute
    rest ← filter_valid_proofs now dispute ps
    if valid then ok (p ∷ rest) else ok rest
