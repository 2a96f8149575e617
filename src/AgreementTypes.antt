-- ===== src/AgreementTypes.antt =====
-- src/agreementManager/types.ts, and the state that the services of `AgreementManager` share.
use state_channels_plus.Prelude.{ℕ, List}
use state_channels_plus.Prelude.Dict.{Dict}
use state_channels_plus.Data.{Bytes, Address, Signature, Block, SignedBlock}

pub record Agreement : Type 0 where
  pub block : Block
  pub block_signatures : List Signature
  pub encoded_state : Bytes

pub record ChainBlock : Type 0 where
  pub transaction_cnt : ℕ
  pub participant_adr : Address
  pub timestamp : ℕ

pub record AgreementFork : Type 0 where
  pub fork_genesis_state_encoded : Bytes
  pub addresses_in_threshold : List Address
  pub genesis_timestamp : ℕ
  pub chain_blocks : List ChainBlock
  pub agreements : List Agreement

pub record BlockConfirmation : Type 0 where
  pub original_signed_block : SignedBlock
  pub confirmation_signature : Signature

-- The array of `ForkService`.
abbrev pub Forks : Type 0
Forks = List AgreementFork

-- `Map<ForkCnt, Map<Height, Map<Adr, T>>>` of QueueService.ts.
abbrev pub Queue : Type 0 → Type 0
Queue T = Dict (Dict (Dict T))

-- `AgreementManager` builds one `ForkService` and one `QueueService`, and hands the same objects to
-- `OnChainTracker` and `BlockValidator`: the four act on this one state.
pub record AgreementState : Type 0 where
  pub forks : Forks
  pub block_q : Queue SignedBlock
  pub conf_q : Queue BlockConfirmation
