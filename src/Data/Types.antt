-- ===== src/Data/Types.antt =====
-- The structs of contracts/V1/DataTypes.sol and the enums of src/types/flags.ts.
use state_channels_plus.Prelude.{ℕ, List}

abbrev pub Bytes : Type 0
Bytes = ℕ

abbrev pub Address : Type 0
Address = ℕ

abbrev pub Signature : Type 0
Signature = ℕ

pub record TransactionHeader : Type 0 where
  pub channel_id : Bytes
  pub participant : Address
  pub fork_cnt : ℕ
  pub transaction_cnt : ℕ
  pub timestamp : ℕ

pub record TransactionBody : Type 0 where
  pub transaction_type : ℕ
  pub encoded_data : Bytes
  pub payload : Bytes

pub record Transaction : Type 0 where
  pub header : TransactionHeader
  pub body : TransactionBody

pub record Block : Type 0 where
  pub transaction : Transaction
  pub state_hash : Bytes
  pub previous_state_hash : Bytes

pub record SignedBlock : Type 0 where
  pub encoded_block : Bytes
  pub signature : Signature

pub record ConfirmedBlock : Type 0 where
  pub encoded_block : Bytes
  pub signatures : List Signature

pub data ExecutionFlag : Type 0 where
  success not_ready duplicate disconnect dispute timestamp_in_future not_enough_time past_fork :
      ExecutionFlag

pub data AgreementFlag : Type 0 where
  invalid_signature ready duplicate incorrect_data double_sign not_ready : AgreementFlag
