-- ===== src/Forks.antt =====
-- src/agreementManager/ForkService.ts: the array of forks and the direct lookups. An array access
-- behind a bounds check is `get_elem?`.
pub mod Lookup
pub mod Ordered
pub mod Hashed
use state_channels_plus.Prelude.{
  ℕ, ◌-◌, max, Bool, Option, none, some, List, [], ◌∷◌, ◌++◌, reverse, length, get_elem?, at_last,
  modify_at, ltb, ◌==◌, if◌then◌else◌, is_some, Result, ok, throw, Error,
}
use state_channels_plus.Data.{
  Bytes, Address, Signature, Block, get_coordinates, get_fork, get_timestamp,
}
use state_channels_plus.SetUtils.{has}
use state_channels_plus.AgreementTypes.{Agreement, AgreementFork, ChainBlock, Forks}

unfoldable pub new_fork : Bytes → List Address → ℕ → ℕ → Forks → Forks
new_fork genesis addresses fork_cnt timestamp forks =
    if length forks == fork_cnt
    then forks
      ++ record {
        fork_genesis_state_encoded = genesis;
        addresses_in_threshold = addresses;
        genesis_timestamp = timestamp;
        chain_blocks = [];
        agreements = [];
      }
        ∷ []
    else forks

abbrev pub push_agreement : Agreement → AgreementFork → AgreementFork
push_agreement a f = record f { agreements = f.agreements ++ a ∷ [] }

unfoldable pub add_agreement : ℕ → Agreement → Forks → Forks
add_agreement fork_cnt a forks = modify_at (push_agreement a) fork_cnt forks

unfoldable pub is_valid_fork_cnt : Forks → ℕ → Bool
is_valid_fork_cnt forks fork_cnt = ltb fork_cnt (length forks)

-- `getFork`. The name `get_fork` is `BlockUtils.getFork`.
abbrev pub fork_at : Forks → ℕ → Option AgreementFork
fork_at forks fork_cnt = get_elem? forks fork_cnt

abbrev pub agreement_of : Option AgreementFork → ℕ → Option Agreement
agreement_of none tx_cnt = none
agreement_of (some f) tx_cnt = get_elem? f.agreements tx_cnt

unfoldable pub get_agreement : Forks → ℕ → ℕ → Option Agreement
get_agreement forks fork_cnt tx_cnt = agreement_of (fork_at forks fork_cnt) tx_cnt

abbrev pub block_of : Option Agreement → Option Block
block_of none = none
block_of (some a) = some a.block

unfoldable pub get_block : Forks → ℕ → ℕ → Option Block
get_block forks fork_cnt tx_cnt = block_of (get_agreement forks fork_cnt tx_cnt)

unfoldable pub get_agreement_by_block : Forks → Block → Option Agreement
get_agreement_by_block forks b =
    let (fork_cnt, height) = get_coordinates b in get_agreement forks fork_cnt height

unfoldable pub add_block : Block → Signature → Bytes → Forks → Result Forks
unfolding is_valid_fork_cnt
add_block b original_signature encoded_state forks =
    if is_valid_fork_cnt forks (get_fork b)
    then (if is_some (get_agreement_by_block forks b)
        then throw Error.double_sign_or_incorrect_data
        else ok (
            add_agreement (get_fork b)
              (record {
                block = b;
                block_signatures = original_signature ∷ [];
                encoded_state = encoded_state;
              })
              forks))
    else throw Error.fork_cnt_not_correct

abbrev pub push_chain_block : ChainBlock → AgreementFork → AgreementFork
push_chain_block c f = record f { chain_blocks = f.chain_blocks ++ c ∷ [] }

unfoldable pub add_chain_block : ℕ → ℕ → Address → ℕ → Forks → Result Forks
unfolding is_valid_fork_cnt
add_chain_block fork_cnt transaction_cnt participant timestamp forks =
    if is_valid_fork_cnt forks fork_cnt
    then ok (
        modify_at
          (push_chain_block (record {
            transaction_cnt = transaction_cnt;
            participant_adr = participant;
            timestamp = timestamp;
          }))
          fork_cnt forks)
    else throw Error.invalid_fork_count

-- `Math.max(0, forks.length - 1)`
unfoldable pub get_latest_fork_cnt : Forks → ℕ
get_latest_fork_cnt forks = length forks - 1

unfoldable pub get_next_fork_index : Forks → ℕ
get_next_fork_index forks = length forks

abbrev pub get_latest_fork : Forks → Option AgreementFork
get_latest_fork forks = at_last forks

unfoldable pub get_next_block_height : Forks → ℕ
get_next_block_height forks = elim (get_latest_fork forks) [
  | none ↦ 0
  | some f ↦ length f.agreements
]

-- `this.forks[forkCnt].forkGenesisStateEncoded`
unfoldable pub get_fork_genesis : Forks → ℕ → Result Bytes
get_fork_genesis forks fork_cnt = elim (fork_at forks fork_cnt) [
  | none ↦ throw Error.type_error
  | some f ↦ ok f.fork_genesis_state_encoded
]

-- `ForkService.isParticipantInLatestFork`, with the failure of `forks.at(-1)!` on no forks.
unfoldable pub is_participant_in_latest : Forks → Address → Result Bool
is_participant_in_latest forks p = elim (get_latest_fork forks) [
  | none ↦ throw Error.type_error
  | some f ↦ ok (has f.addresses_in_threshold p)
]

unfoldable pub get_latest_agreement : Forks → ℕ → Option Agreement
get_latest_agreement forks fork_cnt = elim (fork_at forks fork_cnt) [
  | none ↦ none
  | some f ↦ at_last f.agreements
]

-- The two directions of `agreementsIterator`.
unfoldable pub agreements_forward : Forks → ℕ → List Agreement
agreements_forward forks fork_cnt = elim (fork_at forks fork_cnt) [
  | none ↦ []
  | some f ↦ f.agreements
]

unfoldable pub agreements_backward : Forks → ℕ → List Agreement
agreements_backward forks fork_cnt = elim (fork_at forks fork_cnt) [
  | none ↦ []
  | some f ↦ reverse f.agreements
]

abbrev pub timestamp_of : Option Agreement → ℕ
timestamp_of none = 0
timestamp_of (some a) = a.block.transaction.header.timestamp

unfoldable pub get_latest_block_timestamp : Forks → ℕ → Result ℕ
get_latest_block_timestamp forks fork_cnt = elim (fork_at forks fork_cnt) [
  | none ↦ throw Error.type_error
  | some f ↦ ok (max f.genesis_timestamp (timestamp_of (get_latest_agreement forks fork_cnt)))
]
