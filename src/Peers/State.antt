-- ===== src/Peers/State.antt =====
-- The objects behind the connections. A transport and a profile are known by their numbers; the profiles
-- stand in a store, since several maps hold the same object.
use state_channels_plus.Prelude.{ℕ, Bool, false, Option, some, List}
use state_channels_plus.Prelude.Dict.{Dict}
use state_channels_plus.Data.{Bytes, Address, Signature}

pub data TransportType : Type 0 where
  holepunch webrtc : TransportType

abbrev pub Transport : Type 0
Transport = ℕ

pub record PeerProfile : Type 0 where
  pub transport : Option Transport
  pub evm_address : Address
  pub hp_address : Option ℕ
  pub is_leader : Bool
  pub is_black_listed : Bool
  pub is_handshake_completed : Bool

-- The constructor.
abbrev pub new_profile : Transport → Address → Option ℕ → PeerProfile
new_profile t a hp = record {
  transport = some t;
  evm_address = a;
  hp_address = hp;
  is_leader = false;
  is_black_listed = false;
  is_handshake_completed = false;
}

pub record ConnectionChallenge : Type 0 where
  pub random_challenge_hash : Bytes
  pub init_time : ℕ

-- What a call sends, and whom it tells.
pub data PeerEffect : Type 0 where
  send_handshake_request : Transport → Bytes → ℕ → PeerEffect
  send_handshake_response : Transport → Signature → ℕ → TransportType → PeerEffect
  close_transport : Transport → PeerEffect
  initiate_webrtc : PeerEffect
  on_connection : Address → PeerEffect

-- The maps of `ProfileManager`, the connections of `P2PManager`, the transports whose `isClosed` is set, the
-- challenges of `InitHandshakeService`, and `senderTransport` of `MainRpcService`.
pub record PeerState : Type 0 where
  pub profiles : List PeerProfile
  pub map_transport_to_profile : Dict ℕ
  pub map_evm_address_to_profile : Dict ℕ
  pub map_hp_address_to_profile : Dict ℕ
  pub open_connections : List Transport
  pub closed : List Transport
  pub map_transport_to_challenge : Dict ConnectionChallenge
  pub sender_transport : Option Transport
  pub preferred_transport : TransportType
  pub effects : List PeerEffect
