-- ===== src/Peers/Profiles.antt =====
-- src/ProfileManager.ts, on the store of profiles, and `close` of src/transport/ATransport.ts.
use state_channels_plus.Prelude.{
  ℕ, List, Option, none, some, [], ◌∷◌, ◌++◌, ◌==◌, if◌then◌else◌, any, get_elem?, modify_at,
}
use state_channels_plus.Prelude.Dict.{Dict, lookup, insert, erase}
use state_channels_plus.Data.{Address}
use state_channels_plus.Peers.State.{Transport, PeerProfile, PeerEffect, PeerState}

abbrev pub tell : PeerEffect → PeerState → PeerState
tell x s = record s { effects = s.effects ++ x ∷ [] }

-- A write to a field of a profile.
unfoldable pub modify_profile : (PeerProfile → PeerProfile) → ℕ → PeerState → PeerState
modify_profile f p s = record s { profiles = modify_at f p s.profiles }

abbrev pub insert_if : Option ℕ → ℕ → Dict ℕ → Dict ℕ
insert_if none p d = d
insert_if (some key) p d = insert key p d

abbrev pub erase_if : Option ℕ → Dict ℕ → Dict ℕ
erase_if none d = d
erase_if (some key) d = erase key d

-- `registerProfile(profile)`, for the profile with the number in the store.
unfoldable pub register_profile : ℕ → PeerState → PeerState
register_profile p s = elim (get_elem? s.profiles p) [
  | none ↦ s
  | some profile ↦ record s {
    map_transport_to_profile = insert_if profile.transport p s.map_transport_to_profile;
    map_evm_address_to_profile = insert profile.evm_address p s.map_evm_address_to_profile;
    map_hp_address_to_profile = insert_if profile.hp_address p s.map_hp_address_to_profile;
  }
]

unfoldable pub unregister_profile : ℕ → PeerState → PeerState
unregister_profile p s = elim (get_elem? s.profiles p) [
  | none ↦ s
  | some profile ↦ record s {
    map_transport_to_profile = erase_if profile.transport s.map_transport_to_profile;
    map_evm_address_to_profile = erase profile.evm_address s.map_evm_address_to_profile;
    map_hp_address_to_profile = erase_if profile.hp_address s.map_hp_address_to_profile;
  }
]

unfoldable pub get_profile_by_transport : Transport → PeerState → Option ℕ
get_profile_by_transport t s = lookup t s.map_transport_to_profile

unfoldable pub get_profile_by_evm_address : Address → PeerState → Option ℕ
get_profile_by_evm_address a s = lookup a s.map_evm_address_to_profile

unfoldable pub get_profile_by_hp_address : ℕ → PeerState → Option ℕ
get_profile_by_hp_address a s = lookup a s.map_hp_address_to_profile

-- `filter((t) => t !== transport)`
abbrev pub without : Transport → List Transport → List Transport
without t [] = []
without t (u ∷ us) = if u == t then without t us else u ∷ without t us

-- `transport.close()`: only the first call reaches `_close`, which is that of `HolepunchTransport`: it ends the
-- connection, and calls `removeConnection`, whose own call of `close` does nothing.
unfoldable pub close : Transport → PeerState → PeerState
close t s =
    if any (λ u. u == t) s.closed
    then s
    else tell (PeerEffect.close_transport t) (record s {
      closed = t ∷ s.closed;
      open_connections = without t s.open_connections;
      map_transport_to_profile = erase t s.map_transport_to_profile;
    })

unfoldable pub remove_transport : Transport → PeerState → PeerState
unfolding close
remove_transport t s = elim (lookup t s.map_transport_to_profile) [
  | none ↦ s
  | some p ↦ close t (record s { map_transport_to_profile = erase t s.map_transport_to_profile })
]

abbrev pub remove_if : Option Transport → PeerState → PeerState
remove_if none s = s
remove_if (some t) s = remove_transport t s

abbrev pub transport_of : Option PeerProfile → Option Transport
transport_of none = none
transport_of (some profile) = profile.transport

unfoldable pub update_transport : Address → Transport → PeerState → PeerState
unfolding remove_transport modify_profile
update_transport a t s = elim (lookup a s.map_evm_address_to_profile) [
  | none ↦ s
  | some p ↦
      let s1 =
        modify_profile (λ profile. record profile { transport = some t }) p
          (remove_if (transport_of (get_elem? s.profiles p)) s) in
      record s1 { map_transport_to_profile = insert t p s1.map_transport_to_profile }
]
