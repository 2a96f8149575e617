-- ===== src/Joining.antt =====
-- How a new participant joins a channel: src/utils/SignatureCollectionMap.ts and
-- src/rpc/services/JoinChannelService.ts.
mod Collection
mod Service
pub mod Laws
pub mod Unheard
pub use Collection.{Collected, Collections}
unfoldable pub use Collection.{try_insert, did_everyone_sign, get, has_key}
pub use Service.*
unfoldable pub use Service.{on_join_channel_request}
