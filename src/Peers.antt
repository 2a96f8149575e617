-- ===== src/Peers.antt =====
-- The peers that this one is connected to: src/PeerProfile.ts, src/ProfileManager.ts, the connections of
-- src/P2PManager.ts with src/transport/ATransport.ts, and src/rpc/services/InitHandshakeService.ts.
mod State
mod Profiles
mod Connections
mod Handshake
pub mod Consistent
pub mod Challenges
pub mod Verified
pub use State.*
unfoldable pub use Profiles.{
  register_profile, unregister_profile, update_transport, remove_transport,
  get_profile_by_transport, get_profile_by_evm_address, get_profile_by_hp_address, close,
  modify_profile,
}
unfoldable pub use Connections.{
  init_handshake, add_connection, remove_connection, remove_all, disconnect_all,
}
unfoldable pub use Handshake.{
  on_init_handshake_request, answer_request, on_init_handshake_response, complete_handshake,
}
