-- ===== src/Proofs/Types.antt =====
-- The structs of contracts/V1/DisputeTypes.sol that the TypeScript code reads, and the ABI coder on
-- the proofs (src/types/disputes.ts).
use state_channels_plus.Prelude.{ℕ, Bool, false, Option, List, ◌==◌}
use state_channels_plus.Data.{Bytes, Address, Signature, SignedBlock, ConfirmedBlock}

-- `BigNumberish`: the same integer is a JavaScript number or a bigint. ethers decodes every `uint` as
-- a bigint.
pub data BigNumberish : Type 0 where
  number bigint : ℕ → BigNumberish

-- `Number(x)`
abbrev pub to_number : BigNumberish → ℕ
to_number (number n) = n
to_number (bigint n) = n

-- `n === x` for a number `n`: a bigint is never identical to a number.
abbrev pub is_number : ℕ → BigNumberish → Bool
is_number n (number m) = n == m
is_number n (bigint m) = false

pub data ProofType : Type 0 where
  fold_rechallenge double_sign incorrect_data newer_state fold_prior_block : ProofType
  block_too_far_in_future join_channel leave_channel_force : ProofType

pub record Proof : Type 0 where
  pub proof_type : ProofType
  pub encoded_proof : Bytes

pub record FoldRechallengeProof : Type 0 where
  pub encoded_block : Bytes
  pub signatures : List Signature

pub record DoubleSign : Type 0 where
  pub block1 : SignedBlock
  pub block2 : SignedBlock

pub record DoubleSignProof : Type 0 where
  pub double_signs : List DoubleSign

pub record IncorrectDataProof : Type 0 where
  pub block1 : SignedBlock
  pub block2 : SignedBlock
  pub encoded_state : Bytes

pub record NewerStateProof : Type 0 where
  pub encoded_block : Bytes
  pub confirmation_signature : Signature

pub record FoldPriorBlockProof : Type 0 where
  pub transaction_cnt : ℕ

pub record BlockTooFarInFutureProof : Type 0 where
  pub block1 : SignedBlock

-- The ABI coder of ethers on the structs above, by the type strings of `getEthersTypeForDisputeProof`;
-- a decoder throws on bytes that do not fit.
pub record ProofCoder : Type 0 where
  pub encode_fold_rechallenge : FoldRechallengeProof → Bytes
  pub decode_fold_rechallenge : Bytes → Option FoldRechallengeProof
  pub encode_double_sign : DoubleSignProof → Bytes
  pub decode_double_sign : Bytes → Option DoubleSignProof
  pub encode_incorrect_data : IncorrectDataProof → Bytes
  pub decode_incorrect_data : Bytes → Option IncorrectDataProof
  pub encode_newer_state : NewerStateProof → Bytes
  pub decode_newer_state : Bytes → Option NewerStateProof
  pub encode_fold_prior_block : FoldPriorBlockProof → Bytes
  pub decode_fold_prior_block : Bytes → Option FoldPriorBlockProof
  pub encode_block_too_far_in_future : BlockTooFarInFutureProof → Bytes
  pub decode_block_too_far_in_future : Bytes → Option BlockTooFarInFutureProof

-- The fields of `Dispute` that the TypeScript code reads. Those that it never reads are left out.
pub record Dispute : Type 0 where
  pub channel_id : Bytes
  pub fork_cnt : BigNumberish
  pub challenge_cnt : BigNumberish
  pub virtual_voting_blocks : List ConfirmedBlock
  pub timedout_participant : Address
  pub folded_transaction_cnt : BigNumberish
  pub posted_state_disputer : Address
  pub slashed_participants : List Address
