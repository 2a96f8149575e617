-- ===== src/Agreement.antt =====
-- src/agreementManager/AgreementManager.ts and SignatureService.ts: the operations of the manager on
-- the state that its services share. Those that only pass a call on to a service are the service's.
pub mod Votes
pub mod Confirm
pub mod Finality
pub mod Settled
use state_channels_plus.Prelude.{
  ℕ, Bool, true, false, not, ◌&&◌, ◌||◌, Option, none, some, List, [], ◌∷◌, ◌++◌, ◌==◌,
  if◌then◌else◌, is_some, modify_at, any, Result, ok, throw, Error, ◌>>=◌,
}
use state_channels_plus.Prelude.Action.{Action}
use state_channels_plus.Data.{
  Ethers, Bytes, Address, Signature, Block, SignedBlock, ConfirmedBlock, AgreementFlag,
  encode_block, decode_block, get_fork, get_height, get_block_author, are_blocks_equal,
}
use state_channels_plus.Data.Blocks.{get_signer_addresses, get_participant_signature}
use state_channels_plus.SetUtils.{
  has, from_array, is_subset, is_empty, difference, exclude_from_array,
}
use state_channels_plus.AgreementTypes.{Agreement, AgreementFork, Forks, AgreementState}
use state_channels_plus.Forks.{
  fork_at, get_agreement, get_agreement_by_block, get_latest_fork, agreements_backward,
  is_valid_fork_cnt,
}
use state_channels_plus.OnChain.{collect}
use state_channels_plus.Validator.{check}

-- `blockSignatures.includes(target)`
unfoldable pub does_signature_exist_in : Agreement → Signature → Bool
does_signature_exist_in ag target = any (λ s. s == target) ag.block_signatures

abbrev pub push_signature : Signature → Agreement → Agreement
push_signature s ag = record ag { block_signatures = ag.block_signatures ++ s ∷ [] }

abbrev pub modify_agreement : (Agreement → Agreement) → ℕ → AgreementFork → AgreementFork
modify_agreement g height f = record f { agreements = modify_at g height f.agreements }

-- The agreement that a lookup returned is the object in the array: the push is seen there.
unfoldable pub push_signature_at : Block → Signature → Forks → Forks
push_signature_at b s forks =
    modify_at (modify_agreement (push_signature s) (get_height b)) (get_fork b) forks

unfoldable pub is_participant_in_latest_fork : Forks → Address → Bool
is_participant_in_latest_fork forks participant = elim (get_latest_fork forks) [
  | none ↦ false
  | some f ↦ has f.addresses_in_threshold participant
]

unfoldable pub get_signatures : Forks → Block → List Signature
get_signatures forks b = elim (get_agreement_by_block forks b) [
  | none ↦ []
  | some ag ↦ ag.block_signatures
]

unfoldable pub get_encoded_state : Forks → ℕ → ℕ → Option Bytes
get_encoded_state forks fork_cnt transaction_cnt =
    elim (get_agreement forks fork_cnt transaction_cnt) [
      | none ↦ none
      | some ag ↦ some ag.encoded_state
    ]

unfoldable pub get_fork_genesis_state_encoded : Forks → ℕ → Option Bytes
get_fork_genesis_state_encoded forks fork_cnt = elim (fork_at forks fork_cnt) [
  | none ↦ none
  | some f ↦ some f.fork_genesis_state_encoded
]

pub record LatestVotes : Type 0 where
  pub encoded_latest_finalized_state : Bytes
  pub encoded_latest_correct_state : Bytes
  pub virtual_voting_blocks : List ConfirmedBlock

-- The variables of the loop of `getFinalizedAndLatestWithVotes` when it ends.
pub record Tally : Type 0 where
  pub finalized : Option Bytes
  pub correct : Option Bytes
  pub votes : List ConfirmedBlock

module _ (e : Ethers) where
  unfoldable pub confirm_block : Block → Signature → Forks → Result Forks
  unfolding does_signature_exist_in push_signature_at
  confirm_block b s forks = elim (get_agreement_by_block forks b) [
    | none ↦ throw Error.confirm_no_block
    | some ag ↦
        if not (are_blocks_equal e ag.block b)
        then throw Error.confirm_conflict
        else if does_signature_exist_in ag s
        then throw Error.already_confirmed
        else ok (push_signature_at b s forks)
  ]

  -- The last lines of `getDoubleSignedBlock`, on the stored block.
  unfoldable pub stored_as_signed : Agreement → Option Signature → Option SignedBlock
  stored_as_signed ag none = none
  stored_as_signed ag (some s) =
      some (record { encoded_block = encode_block e ag.block; signature = s })

  unfoldable pub get_double_signed_block : SignedBlock → Forks → Result (Option SignedBlock)
  unfolding stored_as_signed
  get_double_signed_block signed forks = do
    b ← decode_block e signed.encoded_block
    elim (get_agreement_by_block forks b) [
      | none ↦ ok none
      | some ag ↦
          if are_blocks_equal e ag.block b || not (get_block_author ag.block == get_block_author b)
          then ok none
          else do
            s ← get_participant_signature e ag.block ag.block_signatures (get_block_author b)
            ok (stored_as_signed ag s)
    ]

  -- The loop of `getLatestSignedBlockByParticipant`, over the agreements from the last.
  unfoldable pub latest_signed_from : Address → List Agreement → Result (Option (Block × Signature))
  latest_signed_from participant [] = ok none
  latest_signed_from participant (ag ∷ ags) = do
    found ← get_participant_signature e ag.block ag.block_signatures participant
    elim found [ some s ↦ ok (some (ag.block, s)) | none ↦ latest_signed_from participant ags ]

  unfoldable pub get_latest_signed_block_by_participant :
      ℕ → Address → Forks → Result (Option (Block × Signature))
  unfolding latest_signed_from
  get_latest_signed_block_by_participant fork_cnt participant forks =
      if not (is_valid_fork_cnt forks fork_cnt)
      then ok none
      else latest_signed_from participant (agreements_backward forks fork_cnt)

  unfoldable pub did_everyone_sign_block : Block → Forks → Result Bool
  did_everyone_sign_block b forks = elim (get_agreement_by_block forks b) [
    | none ↦ ok false
    | some ag ↦ elim (fork_at forks (get_fork b)) [
      | none ↦ ok false
      | some f ↦ if not (are_blocks_equal e ag.block b) then ok false else do
        signers ← get_signer_addresses e b ag.block_signatures
        ok (is_subset (from_array f.addresses_in_threshold) signers)
    ]
  ]

  unfoldable pub get_original_signature : Block → Forks → Result (Option Signature)
  get_original_signature b forks = elim (get_agreement_by_block forks b) [
    | none ↦ ok none
    | some ag ↦ get_participant_signature e ag.block ag.block_signatures (get_block_author b)
  ]

  unfoldable pub does_signature_exist : Block → Signature → Forks → Result Bool
  unfolding does_signature_exist_in
  does_signature_exist b s forks = elim (get_agreement_by_block forks b) [
    | none ↦ ok false
    | some ag ↦
        if not (are_blocks_equal e ag.block b)
        then throw Error.signature_conflict
        else ok (does_signature_exist_in ag s)
  ]

  unfoldable pub did_participant_sign : Block → Address → Forks → Result (Option Signature)
  did_participant_sign b participant forks = elim (get_agreement_by_block forks b) [
    | none ↦ ok none
    | some ag ↦
        if not (are_blocks_equal e ag.block b)
        then ok none
        else get_participant_signature e ag.block ag.block_signatures participant
  ]

  unfoldable pub get_participants_who_havent_signed_block : Block → Forks → Result (List Address)
  get_participants_who_havent_signed_block b forks = elim (fork_at forks (get_fork b)) [
    | none ↦ ok []
    | some f ↦ elim (get_agreement_by_block forks b) [
      | none ↦ ok []
      | some ag ↦ do
        signers ← get_signer_addresses e ag.block ag.block_signatures
        ok (exclude_from_array f.addresses_in_threshold signers)
    ]
  ]

  abbrev pub confirmed : Agreement → ConfirmedBlock
  confirmed ag = record {
    encoded_block = encode_block e ag.block;
    signatures = ag.block_signatures;
  }

  -- `encodedLatestCorrectState` after the first `if` of the loop's body.
  abbrev pub correct_after : Address → Agreement → List Address → Option Bytes → Option Bytes
  correct_after signer ag signers correct =
      if not (is_some correct) && has signers signer then some ag.encoded_state else correct

  -- The loop, over the agreements from the last, with its `continue` and its `break`.
  unfoldable pub tally_votes :
      Address → List Agreement → Option Bytes → List ConfirmedBlock → List Address → Result Tally
  tally_votes signer [] correct votes required =
      ok (record { finalized = none; correct = correct; votes = votes })
  tally_votes signer (ag ∷ ags) correct votes required = do
    signers ← get_signer_addresses e ag.block ag.block_signatures
    elim (correct_after signer ag signers correct) [
      | none ↦ tally_votes signer ags none votes required
      | some c ↦ elim (is_empty (difference required signers)) [
        | true ↦ ok (record {
          finalized = some ag.encoded_state;
          correct = some c;
          votes = confirmed ag ∷ votes;
        })
        | false ↦
            tally_votes signer ags (some c) (confirmed ag ∷ votes) (difference required signers)
      ]
    ]

  abbrev pub or_genesis : Option Bytes → Bytes → Bytes
  or_genesis none genesis = genesis
  or_genesis (some state) genesis = state

  unfoldable pub get_finalized_and_latest_with_votes : ℕ → Address → Forks → Result LatestVotes
  unfolding tally_votes
  get_finalized_and_latest_with_votes fork_cnt signer forks = elim (fork_at forks fork_cnt) [
    | none ↦ throw Error.fork_not_found
    | some f ↦ do
      t ←
          tally_votes signer (agreements_backward forks fork_cnt) none []
            (from_array f.addresses_in_threshold)
      ok (record {
        encoded_latest_finalized_state = or_genesis t.finalized f.fork_genesis_state_encoded;
        encoded_latest_correct_state = or_genesis t.correct f.fork_genesis_state_encoded;
        virtual_voting_blocks = t.votes;
      })
  ]

  -- `collectOnChainBlock`, with the checker that the constructor sets.
  unfoldable pub collect_on_chain_block : SignedBlock → ℕ → Action AgreementState AgreementFlag
  unfolding collect
  collect_on_chain_block = collect e (check e)
