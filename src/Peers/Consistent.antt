-- ===== src/Peers/Consistent.antt =====
-- The maps of `ProfileManager` agree with the profiles.
use state_channels_plus.Prelude.{
  ℕ, ◌≡◌, ◌≢◌, ◌⊎◌, refl, inl, inr, Option, none, some, [], ◌∷◌, ◌++◌, length, ◌==◌, if◌then◌else◌,
  get_elem?, modify_at, get_elem?-modify_at, get_elem?-push, lt_of_get_elem?, arith, Bool-cases,
  Option-cases,
}
use state_channels_plus.Prelude.Dict.{lookup, insert, erase, lookup-insert, lookup-erase}
use state_channels_plus.Data.{Address}
use state_channels_plus.Peers.State.{Transport, PeerProfile, new_profile, PeerState}
use state_channels_plus.Peers.Profiles.{
  modify_profile, register_profile, close, remove_transport, remove_if, transport_of,
  update_transport, without,
}
use state_channels_plus.Peers.Connections.{remove_connection}

-- The profile under an address has the address, and the profile under a transport has the transport.
pub record IsConsistent (s : PeerState) : Type 0 where
  pub of_address :
      (a : Address) (p : ℕ)
      → lookup a s.map_evm_address_to_profile ≡ some p
      → (x : PeerProfile) × (get_elem? s.profiles p ≡ some x) × (x.evm_address ≡ a)
  pub of_transport :
      (t : Transport) (p : ℕ)
      → lookup t s.map_transport_to_profile ≡ some p
      → (x : PeerProfile) × (get_elem? s.profiles p ≡ some x) × (x.transport ≡ some t)

close_fields :
    (t : Transport) (s : PeerState)
    → ((close t s).profiles ≡ s.profiles)
      × ((u : Transport)
          → (lookup u (close t s).map_transport_to_profile ≡ lookup u s.map_transport_to_profile)
            ⊎ (lookup u (close t s).map_transport_to_profile
                ≡ (if u == t then none else lookup u s.map_transport_to_profile)))
      × ((close t s).map_evm_address_to_profile ≡ s.map_evm_address_to_profile)
unfolding close
close_fields t s =
    (ground arith, λ u. ground (arith, lookup-erase u t s.map_transport_to_profile), ground arith)

-- The removal of a transport takes it out of its map, and changes no other map and no profile.
pub remove_transport_fields :
    (t : Transport) (s : PeerState)
    → ((remove_transport t s).profiles ≡ s.profiles)
      × ((u : Transport)
          → lookup u (remove_transport t s).map_transport_to_profile
            ≡ (if u == t then none else lookup u s.map_transport_to_profile))
      × ((remove_transport t s).map_evm_address_to_profile ≡ s.map_evm_address_to_profile)
unfolding remove_transport
remove_transport_fields t s = elim (Option-cases (lookup t s.map_transport_to_profile)) [
  | inl missing ↦ (ground arith, λ u. ground arith, ground arith)
  | inr (p, found) ↦
      let s1 : PeerState = record s {
        map_transport_to_profile = erase t s.map_transport_to_profile;
      } in
      let (profiles, transports, addresses) = close_fields t s1 in
      (
        ground arith,
        λ u. ground (arith, transports u, lookup-erase u t s.map_transport_to_profile),
        ground arith,
      )
]

pub remove_transport-IsConsistent :
    (t : Transport) (s : PeerState) → IsConsistent s → IsConsistent (remove_transport t s)
remove_transport-IsConsistent t s k =
    let (profiles, transports, addresses) = remove_transport_fields t s in
    record {
      of_address = λ a p h. rw profiles (k.of_address a p (ground arith));
      of_transport = λ u p h. rw profiles (k.of_transport u p (ground (arith, transports u)));
    }

pub close-IsConsistent : (t : Transport) (s : PeerState) → IsConsistent s → IsConsistent (close t s)
close-IsConsistent t s k =
    let (profiles, transports, addresses) = close_fields t s in
    record {
      of_address = λ a p h. rw profiles (k.of_address a p (ground arith));
      of_transport = λ u p h. rw profiles (k.of_transport u p (ground (arith, transports u)));
    }

pub remove_connection_state :
    (t : Transport) (s : PeerState)
    → let s1 : PeerState = record s { open_connections = without t s.open_connections } in
      (remove_connection t s ≡ s1) ⊎ (remove_connection t s ≡ remove_transport t s1)
unfolding remove_connection
remove_connection_state t s = ground arith

pub remove_connection-IsConsistent :
    (t : Transport) (s : PeerState) → IsConsistent s → IsConsistent (remove_connection t s)
remove_connection-IsConsistent t s k =
    let s1 : PeerState = record s { open_connections = without t s.open_connections } in
    let k1 : IsConsistent s1 = record {
      of_address = k.of_address;
      of_transport = k.of_transport;
    } in
    elim (remove_connection_state t s) [
      | inl only ↦ rw only k1
      | inr both ↦ rw both (remove_transport-IsConsistent t s1 k1)
    ]

pub remove_if_fields :
    (o : Option Transport) (s : PeerState)
    → ((remove_if o s).profiles ≡ s.profiles)
      × ((remove_if o s).map_evm_address_to_profile ≡ s.map_evm_address_to_profile)
      × ((u : Transport) (q : ℕ)
          → lookup u (remove_if o s).map_transport_to_profile ≡ some q
          → (lookup u s.map_transport_to_profile ≡ some q) × (o ≢ some u))
remove_if_fields none s = (refl, refl, λ u q h. (h, λ e. ground arith))
remove_if_fields (some t) s =
    let (profiles, transports, addresses) = remove_transport_fields t s in
    (
      profiles,
      addresses,
      λ u q h. (ground (arith, transports u), λ e. ground (arith, transports u)),
    )

-- The profile has been given another transport.
abbrev pub set_transport : Transport → PeerProfile → PeerProfile
set_transport t profile = record profile { transport = some t }

abbrev pub moved : ℕ → Transport → PeerState → PeerState
moved p t s = record s {
  profiles = modify_at (set_transport t) p s.profiles;
  map_transport_to_profile = insert t p s.map_transport_to_profile;
}

pub update_transport_state :
    (a : Address) (t : Transport) (s : PeerState)
    → (update_transport a t s ≡ s)
      ⊎ (p : ℕ) × (lookup a s.map_evm_address_to_profile ≡ some p)
        × (update_transport a t s ≡ moved p t (remove_if (transport_of (get_elem? s.profiles p)) s))
unfolding update_transport modify_profile
update_transport_state a t s = elim (Option-cases (lookup a s.map_evm_address_to_profile)) [
  | inl unknown ↦ inl (ground arith)
  | inr (p, known) ↦ inr (p, known, ground arith)
]

moved-IsConsistent :
    (p : ℕ) (t : Transport) (x : PeerProfile) (s : PeerState)
    → IsConsistent s
    → get_elem? s.profiles p ≡ some x
    → IsConsistent (moved p t (remove_if x.transport s))
moved-IsConsistent p t x s k stored =
    let (profiles, addresses, transports) = remove_if_fields x.transport s in
    let s0 = remove_if x.transport s in
    let changed = λ (q : ℕ). get_elem?-modify_at (set_transport t) p q s0.profiles in
    record {
      of_address = λ b q h.
          let (y, at, of_b) = k.of_address b q (ground arith) in
          elim (Bool-cases (p == q)) [
            | inl same ↦ (set_transport t y, ground (arith, changed q), of_b)
            | inr other ↦ (y, ground (arith, changed q), of_b)
          ];
      of_transport = λ u q h.
          let entry = lookup-insert u t p s0.map_transport_to_profile in
          elim (Bool-cases (u == t)) [
            | inl new ↦ (set_transport t x, ground (arith, entry, changed q), ground arith)
            | inr older ↦
                let (was, kept) = transports u q (ground (arith, entry)) in
                let (y, at, of_u) = k.of_transport u q was in
                elim (Bool-cases (p == q)) [
                  | inl same ↦ absurd (ground arith)
                  | inr other ↦ (y, ground (arith, changed q), of_u)
                ]
          ];
    }

pub update_transport-IsConsistent :
    (a : Address) (t : Transport) (s : PeerState)
    → IsConsistent s
    → IsConsistent (update_transport a t s)
update_transport-IsConsistent a t s k = elim (update_transport_state a t s) [
  | inl same ↦ rw same k
  | inr (p, known, result) ↦
      let (x, stored, its_address) = k.of_address a p known in
      rw (result, stored) (moved-IsConsistent p t x s k stored)
]

abbrev pub registered : Transport → Address → PeerState → PeerState
registered t a s = record s {
  profiles = s.profiles ++ new_profile t a none ∷ [];
  map_transport_to_profile = insert t (length s.profiles) s.map_transport_to_profile;
  map_evm_address_to_profile = insert a (length s.profiles) s.map_evm_address_to_profile;
}

pub register-registered :
    (t : Transport) (a : Address) (s : PeerState)
    → register_profile
        (length s.profiles)
        (record s { profiles = s.profiles ++ new_profile t a none ∷ [] })
      ≡ registered t a s
unfolding register_profile
register-registered t a s =
    ground (arith, get_elem?-push s.profiles (new_profile t a none) (length s.profiles))

pub registered-IsConsistent :
    (t : Transport) (a : Address) (s : PeerState) → IsConsistent s → IsConsistent (registered t a s)
registered-IsConsistent t a s k =
    let n = length s.profiles in
    let x = new_profile t a none in
    record {
      of_address = λ b q h.
          let entry = lookup-insert b a n s.map_evm_address_to_profile in
          elim (Bool-cases (b == a)) [
            | inl new ↦ (x, ground (arith, entry, get_elem?-push s.profiles x q), ground arith)
            | inr older ↦
                let (y, at, of_b) = k.of_address b q (ground (arith, entry)) in
                (
                  y,
                  ground (arith, get_elem?-push s.profiles x q, lt_of_get_elem? s.profiles q y at),
                  of_b,
                )
          ];
      of_transport = λ u q h.
          let entry = lookup-insert u t n s.map_transport_to_profile in
          elim (Bool-cases (u == t)) [
            | inl new ↦ (x, ground (arith, entry, get_elem?-push s.profiles x q), ground arith)
            | inr older ↦
                let (y, at, of_u) = k.of_transport u q (ground (arith, entry)) in
                (
                  y,
                  ground (arith, get_elem?-push s.profiles x q, lt_of_get_elem? s.profiles q y at),
                  of_u,
                )
          ];
    }
