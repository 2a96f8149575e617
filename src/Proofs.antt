-- ===== src/Proofs.antt =====
-- src/ProofManager.ts: the fraud proofs that a peer builds from its agreements, and the filter that
-- says which of them still serve against a dispute.
mod Types
mod Create
mod Valid
pub mod Incorrect
pub mod Meaning
pub mod Filter
pub use Types.*
unfoldable pub use Create.{
  create_fold_rechallenge_proof, double_signs_of, create_double_sign_proof,
  create_genesis_block_incorrect_data_proof, create_regular_block_incorrect_data_proof,
  create_incorrect_data_proof, create_newer_state_proof, create_fold_prior_block_proof,
  create_block_too_far_in_future_proof,
}
unfoldable pub use Valid.{
  zero_address, is_fold_rechallenge_valid, is_double_sign_valid, is_incorrect_data_valid,
  is_newer_state_valid, is_fold_prior_block_valid, is_block_too_far_in_future_valid, validator,
  filter_valid_proofs,
}
