-- ===== src/Data.antt =====
-- The data that the peers exchange (contracts/V1/DataTypes.sol, of which typechain generates the
-- TypeScript types), the flags of src/types/flags.ts, and the routines of src/utils/EvmUtils.ts
-- and src/utils/BlockUtils.ts. Byte strings, addresses, hashes and signatures are only compared and
-- passed on by the code, and are numbers here. Numeric header fields are read as they are: the
-- code converts them by `Number`, which is exact below 2 ^ 53.
mod Types
mod Evm
pub mod Blocks
pub use Types.*
pub use Evm.{Ethers}
unfoldable pub use Evm.{
  encode_block, decode_block, retrieve_signer_address_block, signed_by, get_coordinates, get_height,
  get_fork, get_timestamp, get_block_author, get_channel_id, are_blocks_equal,
}
