-- ===== src/Proofs/Incorrect.antt =====
-- What an incorrect-data proof holds, and when none can be made.
use state_channels_plus.Prelude.{
  ◌-◌, ◌≡◌, ◌<◌, inl, inr, none, some, ok, throw, Error, arith, Option-cases, Result-cases,
}
use state_channels_plus.Data.{
  Ethers, Bytes, Signature, Block, SignedBlock, decode_block, encode_block, get_fork, get_height,
}
use state_channels_plus.AgreementTypes.{Agreement, Forks}
use state_channels_plus.Forks.{get_agreement, get_block, get_agreement_by_block}
use state_channels_plus.Agreement.{get_original_signature, get_encoded_state}
use state_channels_plus.Proofs.Types.{Proof, ProofCoder}
use state_channels_plus.Proofs.Create.{create_incorrect_data_proof}

module _ (e : Ethers) (coder : ProofCoder) where
  -- For a block above the genesis height at whose place the chain holds no agreement, such as a block
  -- at the next height, no incorrect-data proof is ever made: the creation throws.
  pub create_incorrect_data_proof_fails :
      (empty_state : Bytes) (forks : Forks) (signed : SignedBlock) (b : Block)
      → decode_block e signed.encoded_block ≡ ok b
      → 0 < get_height b
      → get_agreement_by_block forks b ≡ none
      → (err : Error) × (create_incorrect_data_proof e coder empty_state forks signed ≡ throw err)
  unfolding create_incorrect_data_proof get_agreement_by_block get_encoded_state
  create_incorrect_data_proof_fails empty_state forks signed b hd above free =
      elim (Option-cases (get_block forks (get_fork b) (get_height b - 1))) [
        | inl missing ↦ (Error.prior_block_not_found, ground arith)
        | inr (prior, found) ↦ elim (Result-cases (get_original_signature e prior forks)) [
          | inr (err, thrown) ↦ (err, ground arith)
          | inl (none, unsigned) ↦ (Error.prior_signature_not_found, ground arith)
          | inl (some s, original) ↦ (Error.prior_state_not_found, ground arith)
        ]
      ]

  -- An incorrect-data proof for a block above the genesis height names the incorrect block first and
  -- the stored block below it second, with the signature that the search for its author's finds, and
  -- carries the state that is stored at the height of the incorrect block itself.
  pub create_incorrect_data_proof_contents :
      (empty_state : Bytes) (forks : Forks) (signed : SignedBlock) (b : Block) (p : Proof)
      → decode_block e signed.encoded_block ≡ ok b
      → 0 < get_height b
      → create_incorrect_data_proof e coder empty_state forks signed ≡ ok p
      → (prior : Block) × (s : Signature) × (ag : Agreement) × (get_block forks
            (get_fork b)
            (get_height b - 1)
          ≡ some prior)
        × (get_original_signature e prior forks ≡ ok (some s))
        × (get_agreement forks (get_fork b) (get_height b) ≡ some ag)
        × (p.encoded_proof
            ≡ coder.encode_incorrect_data (record {
              block1 = signed;
              block2 = record { encoded_block = encode_block e prior; signature = s };
              encoded_state = ag.encoded_state;
            }))
  unfolding create_incorrect_data_proof get_encoded_state
  create_incorrect_data_proof_contents empty_state forks signed b p hd above h =
      elim (Option-cases (get_block forks (get_fork b) (get_height b - 1))) [
        | inl missing ↦ absurd (ground arith)
        | inr (prior, found) ↦ elim (Result-cases (get_original_signature e prior forks)) [
          | inr (err, thrown) ↦ absurd (ground arith)
          | inl (none, unsigned) ↦ absurd (ground arith)
          | inl (some s, original) ↦
              elim (Option-cases (get_agreement forks (get_fork b) (get_height b))) [
                | inl free ↦ absurd (ground arith)
                | inr (ag, stored) ↦ (prior, s, ag, found, original, stored, ground arith)
              ]
        ]
      ]
