-- ===== src/Proofs/Create.antt =====
-- The creation of proofs. The manager's agreements are read, never changed.
use state_channels_plus.Prelude.{
  ℕ, ◌-◌, not, Option, none, some, List, [], ◌∷◌, leb, if◌then◌else◌, Result, ok, throw, Error,
  ◌>>=◌,
}
use state_channels_plus.Data.{
  Ethers, Bytes, Address, SignedBlock, encode_block, decode_block, get_fork, get_height,
}
use state_channels_plus.AgreementTypes.{Forks}
use state_channels_plus.Forks.{get_block}
use state_channels_plus.Agreement.{
  did_everyone_sign_block, get_signatures, get_double_signed_block, get_original_signature,
  get_encoded_state, get_fork_genesis_state_encoded, get_latest_signed_block_by_participant,
}
use state_channels_plus.Proofs.Types.{Proof, ProofType, ProofCoder, DoubleSign, IncorrectDataProof}

module _ (e : Ethers) (coder : ProofCoder) where
  unfoldable pub create_fold_rechallenge_proof : Forks → ℕ → ℕ → Result (Option Proof)
  create_fold_rechallenge_proof forks fork_cnt transaction_cnt =
      elim (get_block forks fork_cnt transaction_cnt) [
        | none ↦ ok none
        | some b ↦ do
          all_signed ← did_everyone_sign_block e b forks
          if not all_signed
              then ok none
              else ok (
                  some (record {
                    proof_type = ProofType.fold_rechallenge;
                    encoded_proof = coder.encode_fold_rechallenge (record {
                      encoded_block = encode_block e b;
                      signatures = get_signatures forks b;
                    });
                  }))
      ]

  -- The pairs that `flatMap` collects in `createDoubleSignProof`.
  unfoldable pub double_signs_of : Forks → List SignedBlock → Result (List DoubleSign)
  double_signs_of forks [] = ok []
  double_signs_of forks (signed ∷ rest) = do
    found ← get_double_signed_block e signed forks
    others ← double_signs_of forks rest
    elim found [
      | none ↦ ok others
      | some conflicting ↦ ok (record { block1 = signed; block2 = conflicting } ∷ others)
    ]

  unfoldable pub create_double_sign_proof : Forks → List SignedBlock → Result Proof
  unfolding double_signs_of
  create_double_sign_proof forks conflicting = do
    pairs ← double_signs_of forks conflicting
    ok (record {
      proof_type = ProofType.double_sign;
      encoded_proof = coder.encode_double_sign (record { double_signs = pairs });
    })

  -- `empty_state` is the byte string "0x".
  unfoldable pub create_genesis_block_incorrect_data_proof :
      Bytes → Forks → SignedBlock → ℕ → IncorrectDataProof
  create_genesis_block_incorrect_data_proof empty_state forks incorrect fork_cnt = record {
    block1 = incorrect;
    block2 = incorrect;
    encoded_state = elim (get_fork_genesis_state_encoded forks fork_cnt) [
      | none ↦ empty_state
      | some state ↦ state
    ];
  }

  unfoldable pub create_regular_block_incorrect_data_proof :
      Forks → SignedBlock → ℕ → ℕ → Result IncorrectDataProof
  create_regular_block_incorrect_data_proof forks incorrect fork_cnt transaction_cnt =
      elim (get_block forks fork_cnt (transaction_cnt - 1)) [
        | none ↦ throw Error.prior_block_not_found
        | some prior ↦ do
          original ← get_original_signature e prior forks
          elim original [
            | none ↦ throw Error.prior_signature_not_found
            | some signature ↦ elim (get_encoded_state forks fork_cnt transaction_cnt) [
              | none ↦ throw Error.prior_state_not_found
              | some state ↦ ok (record {
                block1 = incorrect;
                block2 = record { encoded_block = encode_block e prior; signature = signature };
                encoded_state = state;
              })
            ]
          ]
      ]

  unfoldable pub create_incorrect_data_proof : Bytes → Forks → SignedBlock → Result Proof
  unfolding create_genesis_block_incorrect_data_proof create_regular_block_incorrect_data_proof
  create_incorrect_data_proof empty_state forks incorrect = do
    b ← decode_block e incorrect.encoded_block
    p ←
        (if leb (get_height b) 0
          then ok
              (create_genesis_block_incorrect_data_proof empty_state forks incorrect (get_fork b))
          else create_regular_block_incorrect_data_proof forks incorrect (get_fork b)
              (get_height b))
    ok (record {
      proof_type = ProofType.incorrect_data;
      encoded_proof = coder.encode_incorrect_data p;
    })

  unfoldable pub create_newer_state_proof : Forks → ℕ → Address → ℕ → Result (Option Proof)
  create_newer_state_proof forks fork_cnt participant current_transaction_cnt = do
    found ← get_latest_signed_block_by_participant e fork_cnt participant forks
    elim found [
      | none ↦ ok none
      | some (b, signature) ↦
          if leb (get_height b) current_transaction_cnt
          then ok none
          else ok (
              some (record {
                proof_type = ProofType.newer_state;
                encoded_proof = coder.encode_newer_state (record {
                  encoded_block = encode_block e b;
                  confirmation_signature = signature;
                });
              }))
    ]

  unfoldable pub create_fold_prior_block_proof : ℕ → Proof
  create_fold_prior_block_proof transaction_cnt = record {
    proof_type = ProofType.fold_prior_block;
    encoded_proof = coder.encode_fold_prior_block (record { transaction_cnt = transaction_cnt });
  }

  unfoldable pub create_block_too_far_in_future_proof : SignedBlock → Proof
  create_block_too_far_in_future_proof signed = record {
    proof_type = ProofType.block_too_far_in_future;
    encoded_proof = coder.encode_block_too_far_in_future (record { block1 = signed });
  }
