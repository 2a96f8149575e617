-- ===== src/Peers/Handshake.antt =====
-- src/rpc/services/InitHandshakeService.ts
use state_channels_plus.Prelude.{
  ℕ, ◌+◌, Bool, true, false, not, ◌&&◌, ◌||◌, none, some, [], ◌∷◌, ◌++◌, length, ltb, if◌then◌else◌,
  ok, throw, Error,
}
use state_channels_plus.Prelude.Action.{Action}
use state_channels_plus.Prelude.Dict.{lookup}
use state_channels_plus.Data.{Bytes, Address, Signature}
use state_channels_plus.Manager.{Env}
use state_channels_plus.Peers.State.{
  TransportType, Transport, new_profile, ConnectionChallenge, PeerEffect, PeerState,
}
use state_channels_plus.Peers.Profiles.{
  tell, modify_profile, register_profile, update_transport, get_profile_by_evm_address,
}
use state_channels_plus.Peers.Connections.{remove_connection}

-- `Math.abs(a - b) > bound`
abbrev pub differ_by_more : ℕ → ℕ → ℕ → Bool
differ_by_more a b bound = ltb (b + bound) a || ltb (a + bound) b

abbrev pub is_webrtc : TransportType → Bool
is_webrtc TransportType.webrtc = true
is_webrtc TransportType.holepunch = false

-- The handlers read the clock, the type of a transport, and the configuration of the manager.
module _ {M : Type 0} (env : Env M) (transport_type : Transport → TransportType) (now : ℕ) where
  -- What follows the signing in `onInitHandshakeRequest`: the transport is read after the wait for the signature,
  -- and `send` of none throws.
  unfoldable pub answer_request : Bytes → Action PeerState (Unit {0})
  answer_request challenge s = elim (s.sender_transport) [
    | none ↦ (throw Error.type_error, s)
    | some t ↦ (
      ok tt,
      tell
          (PeerEffect.send_handshake_response t (env.sign_message challenge) now
            s.preferred_transport)
          s,
    )
  ]

  unfoldable pub on_init_handshake_request : Bytes → ℕ → Action PeerState (Unit {0})
  unfolding answer_request
  on_init_handshake_request challenge time s =
      if differ_by_more time now env.time_config.agreement_time
      then (ok tt, s)
      else answer_request challenge s

  -- The profile of the address, with the new transport: a new one, or the one that is known.
  abbrev pub profile_for : Transport → Address → PeerState → ℕ × PeerState
  profile_for t a s = elim (get_profile_by_evm_address a s) [
    | none ↦
        let p = length s.profiles in
        (p, register_profile p (record s { profiles = s.profiles ++ new_profile t a none ∷ [] }))
    | some p ↦ (p, update_transport a t s)
  ]

  -- The end of `onInitHandshakeResponse`, for a signature by the address.
  unfoldable pub complete_handshake : Transport → Address → TransportType → PeerState → PeerState
  unfolding modify_profile register_profile update_transport get_profile_by_evm_address
  complete_handshake t a preferred s =
      let (p, s1) = profile_for t a s in
      let s2 = modify_profile (λ profile. record profile { is_handshake_completed = true }) p s1 in
      let upgrade =
        (is_webrtc preferred || is_webrtc s.preferred_transport)
        && not (is_webrtc (transport_type t))
        && ltb env.signer_address a in
      tell (PeerEffect.on_connection a) (if upgrade then tell PeerEffect.initiate_webrtc s2 else s2)

  -- The tests on the challenge of the transport, then the signature.
  abbrev pub check_response :
      Transport → ConnectionChallenge → Signature → ℕ → TransportType → Action PeerState (Unit {0})
  check_response t challenge signature response_time preferred s =
      if ltb (challenge.init_time + env.time_config.agreement_time) now
      then (ok tt, remove_connection t s)
      else if differ_by_more response_time challenge.init_time env.time_config.agreement_time
      then (ok tt, remove_connection t s)
      else elim (env.ethers.verify_message challenge.random_challenge_hash signature) [
        | none ↦ (throw Error.bad_signature, s)
        | some a ↦ (ok tt, complete_handshake t a preferred s)
      ]

  unfoldable pub on_init_handshake_response :
      Signature → ℕ → TransportType → Action PeerState (Unit {0})
  unfolding complete_handshake
  on_init_handshake_response signature response_time preferred s = elim (s.sender_transport) [
    | none ↦ (throw Error.type_error, s)
    | some t ↦ elim (lookup t s.map_transport_to_challenge) [
      | none ↦ (ok tt, remove_connection t s)
      | some challenge ↦ check_response t challenge signature response_time preferred s
    ]
  ]
