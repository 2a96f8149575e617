-- ===== src/Peers/Connections.antt =====
-- The connections of src/P2PManager.ts.
use state_channels_plus.Prelude.{ℕ, List, [], ◌∷◌, ◌++◌, none, some}
use state_channels_plus.Prelude.Dict.{insert}
use state_channels_plus.Data.{Bytes}
use state_channels_plus.Peers.State.{Transport, PeerEffect, PeerState}
use state_channels_plus.Peers.Profiles.{tell, without, remove_transport, get_profile_by_transport}

-- `InitHandshakeService.initHandshake`, with the random challenge and the time of the clock.
unfoldable pub init_handshake : Transport → Bytes → ℕ → PeerState → PeerState
init_handshake t challenge now s =
    tell (PeerEffect.send_handshake_request t challenge now) (record s {
      map_transport_to_challenge =
          insert t (record { random_challenge_hash = challenge; init_time = now })
            s.map_transport_to_challenge;
    })

unfoldable pub add_connection : Transport → Bytes → ℕ → PeerState → PeerState
unfolding init_handshake
add_connection t challenge now s =
    init_handshake t challenge now (record s { open_connections = s.open_connections ++ t ∷ [] })

unfoldable pub remove_connection : Transport → PeerState → PeerState
unfolding get_profile_by_transport
remove_connection t s =
    let s1 : PeerState = record s { open_connections = without t s.open_connections } in
    elim (get_profile_by_transport t s1) [ none ↦ s1 | some p ↦ remove_transport t s1 ]

-- The loop of `disconnectAll` runs over the array that the field held when it began.
unfoldable pub remove_all : List Transport → PeerState → PeerState
unfolding remove_connection
remove_all [] s = s
remove_all (t ∷ ts) s = remove_all ts (remove_connection t s)

unfoldable pub disconnect_all : PeerState → PeerState
unfolding remove_all
disconnect_all s = remove_all s.open_connections s
