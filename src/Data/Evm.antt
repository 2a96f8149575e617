-- ===== src/Data/Evm.antt =====
-- src/utils/EvmUtils.ts and the accessors of src/utils/BlockUtils.ts, over the routines of ethers.
use state_channels_plus.Prelude.{ℕ, Bool, Option, ◌==◌, Error, Result, or_throw}
use state_channels_plus.Data.Types.{Bytes, Address, Signature, Block}

-- What the code uses of the library ethers: the ABI coder on blocks, which throws on bytes that it
-- cannot decode, the hash, and the recovery of a signer, which throws on a malformed signature.
pub record Ethers : Type 0 where
  pub abi_encode : Block → Bytes
  pub abi_decode : Bytes → Option Block
  pub keccak256 : Bytes → Bytes
  pub verify_message : Bytes → Signature → Option Address

abbrev pub get_height : Block → ℕ
get_height b = b.transaction.header.transaction_cnt

abbrev pub get_fork : Block → ℕ
get_fork b = b.transaction.header.fork_cnt

-- The pair of the fork and the height.
abbrev pub get_coordinates : Block → ℕ × ℕ
get_coordinates b = (b.transaction.header.fork_cnt, b.transaction.header.transaction_cnt)

abbrev pub get_timestamp : Block → ℕ
get_timestamp b = b.transaction.header.timestamp

abbrev pub get_block_author : Block → Address
get_block_author b = b.transaction.header.participant

abbrev pub get_channel_id : Block → Bytes
get_channel_id b = b.transaction.header.channel_id

module _ (e : Ethers) where
  unfoldable pub encode_block : Block → Bytes
  encode_block b = e.abi_encode b

  unfoldable pub decode_block : Bytes → Result Block
  decode_block bytes = or_throw (e.abi_decode bytes) Error.bad_encoding

  -- The signer of a byte string: `verifyMessage` over the bytes of its hash.
  unfoldable pub signed_by : Bytes → Signature → Result Address
  signed_by bytes signature =
      or_throw (e.verify_message (e.keccak256 bytes) signature) Error.bad_signature

  unfoldable pub retrieve_signer_address_block : Block → Signature → Result Address
  unfolding signed_by encode_block
  retrieve_signer_address_block b signature = signed_by (encode_block b) signature

  unfoldable pub are_blocks_equal : Block → Block → Bool
  unfolding encode_block
  are_blocks_equal a b = encode_block a == encode_block b
