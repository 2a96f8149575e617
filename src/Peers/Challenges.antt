-- ===== src/Peers/Challenges.antt =====
-- What a completed handshake stands for, and what a peer signs for one.
use state_channels_plus.Prelude.{
  ℕ, ◌≡◌, ◌≢◌, ◌⊎◌, refl, inl, inr, none, some, length, ◌==◌, true, get_elem?, modify_at,
  get_elem?-modify_at, get_elem?-push, arith, Bool-cases, Option-cases,
}
use state_channels_plus.Prelude.Dict.{lookup}
use state_channels_plus.Data.{Address}
use state_channels_plus.Manager.{Env}
use state_channels_plus.Peers.State.{TransportType, Transport, PeerProfile, new_profile, PeerState}
use state_channels_plus.Peers.Profiles.{
  modify_profile, transport_of, remove_if, update_transport, get_profile_by_evm_address,
}
use state_channels_plus.Peers.Handshake.{profile_for, complete_handshake}
use state_channels_plus.Peers.Consistent.{
  IsConsistent, remove_if_fields, set_transport, moved, update_transport_state,
  update_transport-IsConsistent, registered, register-registered, registered-IsConsistent,
}

module _ {M : Type 0} (env : Env M) (kind : Transport → TransportType) (now : ℕ) where
  -- The profile that a handshake completes, and the other profiles.
  record Chosen (a : Address) (s : PeerState) (p : ℕ) (s1 : PeerState) : Type 0 where
    consistent : IsConsistent s1
    profile : PeerProfile
    stored : get_elem? s1.profiles p ≡ some profile
    its_address : profile.evm_address ≡ a
    others :
        (q : ℕ) (y : PeerProfile)
        → get_elem? s1.profiles q ≡ some y
        → q ≢ p
        → get_elem? s.profiles q ≡ some y

  new-Chosen :
      (t : Transport) (a : Address) (s : PeerState)
      → IsConsistent s
      → Chosen a s (length s.profiles) (registered t a s)
  new-Chosen t a s k =
      let x = new_profile t a none in
      record {
        consistent = registered-IsConsistent t a s k;
        profile = x;
        stored = ground (arith, get_elem?-push s.profiles x (length s.profiles));
        its_address = refl;
        others = λ q y at other. ground (arith, get_elem?-push s.profiles x q);
      }

  known-Chosen :
      (t : Transport) (a : Address) (p : ℕ) (s : PeerState)
      → IsConsistent s
      → lookup a s.map_evm_address_to_profile ≡ some p
      → Chosen a s p (update_transport a t s)
  known-Chosen t a p s k known = elim (update_transport_state a t s) [
    | inl same ↦
        let (x, at, of_a) = k.of_address a p known in
        rw same (record {
          consistent = k;
          profile = x;
          stored = at;
          its_address = of_a;
          others = λ q y at' other. at';
        })
    | inr (p', known', result) ↦
        let (x, at, of_a) = k.of_address a p known in
        let o = transport_of (get_elem? s.profiles p') in
        let (profiles, addresses, transports) = remove_if_fields o s in
        let s0 = remove_if o s in
        let same : p' ≡ p = ground arith in
        let changed = λ (q : ℕ). get_elem?-modify_at (set_transport t) p' q s0.profiles in
        let k' : IsConsistent (moved p' t s0) =
          rw (← result) (update_transport-IsConsistent a t s k) in
        rw result (record {
          consistent = k';
          profile = set_transport t x;
          stored = ground (arith, changed p);
          its_address = of_a;
          others = λ q y at' other. ground (arith, changed q);
        })
  ]

  profile_for-Chosen :
      (t : Transport) (a : Address) (s : PeerState)
      → IsConsistent s
      → let (p, s1) = profile_for env kind now t a s in Chosen a s p s1
  unfolding get_profile_by_evm_address
  profile_for-Chosen t a s k = elim (Option-cases (lookup a s.map_evm_address_to_profile)) [
    | inl unknown ↦
        let same : profile_for env kind now t a s ≡ (length s.profiles, registered t a s) =
          ground (arith, register-registered t a s) in
        rw same (new-Chosen t a s k)
    | inr (p, known) ↦
        let same : profile_for env kind now t a s ≡ (p, update_transport a t s) = ground arith in
        rw same (known-Chosen t a p s k known)
  ]

  -- The profiles and the maps after a handshake.
  complete_handshake_fields :
      (t : Transport) (a : Address) (preferred : TransportType) (s : PeerState)
      → let (p, s1) = profile_for env kind now t a s in
        let s' = complete_handshake env kind now t a preferred s in
        (s'.profiles ≡ modify_at (λ x. record x { is_handshake_completed = true }) p s1.profiles)
        × (s'.map_transport_to_profile ≡ s1.map_transport_to_profile)
        × (s'.map_evm_address_to_profile ≡ s1.map_evm_address_to_profile)
  unfolding complete_handshake modify_profile
  complete_handshake_fields t a preferred s = (ground arith, ground arith, ground arith)

  -- A profile whose handshake counts as completed had it completed before, or has the address.
  abbrev pub Adds : Address → PeerState → PeerState → Type 0
  Adds a s s' =
      (q : ℕ) (y : PeerProfile)
      → get_elem? s'.profiles q ≡ some y
      → y.is_handshake_completed ≡ true
      → (get_elem? s.profiles q ≡ some y) ⊎ (y.evm_address ≡ a)

  pub complete_handshake-Adds :
      (t : Transport) (a : Address) (preferred : TransportType) (s : PeerState)
      → IsConsistent s
      → let s' = complete_handshake env kind now t a preferred s in IsConsistent s' × Adds a s s'
  complete_handshake-Adds t a preferred s k =
      let (p, s1) = profile_for env kind now t a s in
      let complete : PeerProfile → PeerProfile = λ x. record x { is_handshake_completed = true } in
      let (profiles, transports, addresses) = complete_handshake_fields t a preferred s in
      let c = profile_for-Chosen t a s k in
      let changed = λ (q : ℕ). get_elem?-modify_at complete p q s1.profiles in
      (
        record {
          of_address = λ b q h.
              let (y, at, of_b) = c.consistent.of_address b q (ground arith) in
              elim (Bool-cases (p == q)) [
                | inl same ↦ (complete y, ground (arith, changed q), of_b)
                | inr other ↦ (y, ground (arith, changed q), of_b)
              ];
          of_transport = λ u q h.
              let (y, at, of_u) = c.consistent.of_transport u q (ground arith) in
              elim (Bool-cases (p == q)) [
                | inl same ↦ (complete y, ground (arith, changed q), of_u)
                | inr other ↦ (y, ground (arith, changed q), of_u)
              ];
        },
        λ q y at done. elim (Bool-cases (p == q)) [
          | inl same ↦ inr (ground (arith, changed q, c.stored, c.its_address))
          | inr other ↦ inl (c.others q y (ground (arith, changed q)) (λ e. ground arith))
        ],
      )
