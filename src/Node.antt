-- ===== src/Node.antt =====
-- A peer as a whole, as remote calls reach it: `onRpc` of src/P2PManager.ts, and src/rpc/MainRpcService.ts, which
-- hands each call to its service. The services keep their state apart: that of the manager, of the connections
-- with the handshakes, and of the requests to join.
pub mod Sound
use state_channels_plus.Prelude.{ℕ, Option, none, some}
use state_channels_plus.Data.{Bytes, Signature, SignedBlock}
use state_channels_plus.Manager.{
  Env, ManagerState, receive_signed_block, receive_block_confirmation,
}
use state_channels_plus.Joining.{SignedJoinChannel, JoinEnv, JoinState, on_join_channel_request}
use state_channels_plus.Peers.{
  TransportType, Transport, PeerState, on_init_handshake_request, on_init_handshake_response,
}

-- The remote calls, with their parameters.
pub data Rpc : Type 0 where
  init_handshake_request : Bytes → ℕ → Rpc
  init_handshake_response : Signature → ℕ → TransportType → Rpc
  join_channel_request : SignedJoinChannel → Option Signature → Rpc
  signed_block : SignedBlock → Rpc
  block_confirmation : SignedBlock → Signature → Rpc

pub record NodeState (M : Type 0) : Type 0 where
  pub manager : ManagerState M
  pub peers : PeerState
  pub joining : JoinState

-- What a peer is built on. `deserialize` is `deserializeRpc` with the look-up of the method: JSON that names a
-- method of `MainRpcService`.
pub record NodeEnv (M : Type 0) : Type 0 where
  pub env : Env M
  pub join_env : JoinEnv
  pub transport_type : Transport → TransportType
  pub deserialize : Bytes → Option Rpc

module _ {M : Type 0} (e : NodeEnv M) (now : ℕ) where
  -- `MainRpcService`: nobody waits for the promise of a service, so that a throw in it is dropped.
  unfoldable pub dispatch : Rpc → NodeState M → NodeState M
  dispatch (Rpc.init_handshake_request challenge time) n = record n {
    peers = (on_init_handshake_request e.env e.transport_type now challenge time n.peers).1;
  }
  dispatch (Rpc.init_handshake_response signature time preferred) n = record n {
    peers =
        (on_init_handshake_response e.env e.transport_type now signature time preferred n.peers).1;
  }
  dispatch (Rpc.join_channel_request signed x) n = record n {
    joining =
        on_join_channel_request e.join_env signed x now
          (e.env.machine.get_participants n.manager.machine) n.joining;
  }
  dispatch (Rpc.signed_block signed) n = record n {
    manager = (receive_signed_block e.env now signed n.manager).1;
  }
  dispatch (Rpc.block_confirmation signed x) n = record n {
    manager = (receive_block_confirmation e.env now signed x n.manager).1;
  }

  unfoldable pub on_rpc : Bytes → NodeState M → NodeState M
  unfolding dispatch
  on_rpc serialized n = elim (e.deserialize serialized) [ none ↦ n | some rpc ↦ dispatch rpc n ]

  -- `onMessage` of a transport.
  unfoldable pub on_message : Transport → Bytes → NodeState M → NodeState M
  unfolding on_rpc
  on_message t serialized n =
      on_rpc serialized (record n { peers = record (n.peers) { sender_transport = some t } })
