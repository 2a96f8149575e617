-- ===== src/Validator.antt =====
-- src/agreementManager/BlockValidator.ts: how an incoming block relates to the canonical chain.
pub mod Check
use state_channels_plus.Prelude.{
  ℕ, max, ◌-◌, Bool, true, false, not, ◌||◌, Option, none, some, ◌==◌, if◌then◌else◌, Result, ok,
  throw, Error, ◌>>=◌,
}
use state_channels_plus.Data.{
  Ethers, Address, Block, SignedBlock, AgreementFlag, decode_block, get_fork, get_height,
  get_block_author, are_blocks_equal, retrieve_signer_address_block,
}
use state_channels_plus.AgreementTypes.{Forks, AgreementState}
use state_channels_plus.Forks.{
  fork_at, get_block, get_agreement_by_block, get_latest_agreement, timestamp_of, is_valid_fork_cnt,
}
use state_channels_plus.Queues.{is_block_queued}
use state_channels_plus.OnChain.{latest_timestamp}

unfoldable pub latest_block_timestamp : Forks → ℕ → Result ℕ
latest_block_timestamp forks fork_cnt = elim (fork_at forks fork_cnt) [
  | none ↦ throw Error.fork_not_found
  | some f ↦ ok (max f.genesis_timestamp (timestamp_of (get_latest_agreement forks fork_cnt)))
]

unfoldable pub latest_relevant_timestamp : Forks → ℕ → ℕ → Result ℕ
unfolding latest_block_timestamp
latest_relevant_timestamp forks fork_cnt max_tx_cnt = do
  a ← latest_block_timestamp forks fork_cnt
  b ← latest_timestamp forks fork_cnt max_tx_cnt
  ok (max a b)

module _ (e : Ethers) where
  unfoldable pub is_block_in_chain : AgreementState → Block → Bool
  is_block_in_chain s b = elim (get_agreement_by_block s.forks b) [
    | none ↦ false
    | some ag ↦ are_blocks_equal e ag.block b
  ]

  unfoldable pub is_block_duplicate : AgreementState → Block → Bool
  unfolding is_block_in_chain
  is_block_duplicate s b = is_block_in_chain s b || is_block_queued e b s.block_q

  -- Steps 5 and 6 of `check`: the link of a block to the state before it.
  unfoldable pub check_link : AgreementState → Block → Result AgreementFlag
  check_link s b =
      if get_height b == 0
      then elim (fork_at s.forks (get_fork b)) [
        | none ↦ throw Error.type_error
        | some f ↦
            if b.previous_state_hash == e.keccak256 f.fork_genesis_state_encoded
            then ok AgreementFlag.ready
            else ok AgreementFlag.incorrect_data
      ]
      else elim (get_block s.forks (get_fork b) (get_height b - 1)) [
        | none ↦ ok AgreementFlag.not_ready
        | some prev ↦
            if prev.state_hash == b.previous_state_hash
            then ok AgreementFlag.ready
            else ok AgreementFlag.incorrect_data
      ]

  unfoldable pub check : AgreementState → SignedBlock → Result AgreementFlag
  unfolding check_link
  check s signed = do
    b ← decode_block e signed.encoded_block
    let participant = get_block_author b
    signer ← retrieve_signer_address_block e b signed.signature
    if not (signer == participant)
        then ok AgreementFlag.invalid_signature
        else if is_block_duplicate s b
        then ok AgreementFlag.duplicate
        else if not (is_valid_fork_cnt s.forks (get_fork b))
        then ok AgreementFlag.not_ready
        else elim (get_block s.forks (get_fork b) (get_height b)) [
          | some existing ↦
              if get_block_author existing == participant
              then ok AgreementFlag.double_sign
              else ok AgreementFlag.incorrect_data
          | none ↦ check_link s b
        ]
