-- ===== src/Peers/Verified.antt =====
-- What stands behind a completed handshake, and what a peer signs for one.
use state_channels_plus.Prelude.{
  ℕ, ◌+◌, ◌≤◌, ◌≡◌, ◌⊎◌, refl, inl, inr, some, [], ◌∷◌, ◌++◌, ltb, true, false, ok, get_elem?,
  arith, Bool-cases, Option-cases,
}
use state_channels_plus.Prelude.Dict.{lookup}
use state_channels_plus.Data.{
  Bytes, Address, Signature, Block, encode_block, retrieve_signer_address_block, signed_by,
}
use state_channels_plus.Manager.{Env, own_signature}
use state_channels_plus.Peers.State.{
  TransportType, Transport, PeerProfile, ConnectionChallenge, PeerEffect, PeerState,
}
use state_channels_plus.Peers.Profiles.{without}
use state_channels_plus.Peers.Connections.{remove_connection}
use state_channels_plus.Peers.Handshake.{
  differ_by_more, answer_request, on_init_handshake_request, complete_handshake,
  on_init_handshake_response,
}
use state_channels_plus.Peers.Consistent.{
  IsConsistent, remove_transport_fields, remove_connection_state, remove_connection-IsConsistent,
}
use state_channels_plus.Peers.Challenges.{complete_handshake-Adds}

remove_connection-profiles :
    (t : Transport) (s : PeerState) → (remove_connection t s).profiles ≡ s.profiles
remove_connection-profiles t s =
    let s1 : PeerState = record s { open_connections = without t s.open_connections } in
    let (profiles, transports, addresses) = remove_transport_fields t s1 in
    elim (remove_connection_state t s) [ inl only ↦ rw only refl | inr both ↦ rw both profiles ]

module _ {M : Type 0} (env : Env M) (kind : Transport → TransportType) (now : ℕ) where
  -- The address has signed the challenge that its transport was given, in time.
  pub record IsAnswered (signature : Signature) (response_time : ℕ) (s : PeerState) (a : Address)
      : Type 0 where
    pub transport : Transport
    pub challenge : ConnectionChallenge
    pub sender : s.sender_transport ≡ some transport
    pub outstanding : lookup transport s.map_transport_to_challenge ≡ some challenge
    pub in_time : now ≤ challenge.init_time + env.time_config.agreement_time
    pub clocks_agree :
        differ_by_more response_time challenge.init_time env.time_config.agreement_time ≡ false
    pub signed : env.ethers.verify_message challenge.random_challenge_hash signature ≡ some a

  -- The ends of a call.
  response_state :
      (signature : Signature) (time : ℕ) (preferred : TransportType) (s : PeerState)
      → let s' = (on_init_handshake_response env kind now signature time preferred s).1 in
        (s' ≡ s)
        ⊎ (((t : Transport) × (s' ≡ remove_connection t s))
            ⊎ ((a : Address) × (k : IsAnswered signature time s a) × (s'
                  ≡ complete_handshake env kind now k.transport a preferred s)))
  unfolding on_init_handshake_response
  response_state signature time preferred s = elim (Option-cases (s.sender_transport)) [
    | inl nobody ↦ inl (ground arith)
    | inr (t, sender) ↦ elim (Option-cases (lookup t s.map_transport_to_challenge)) [
      | inl missing ↦ inr (inl (t, ground arith))
      | inr (c, outstanding) ↦
          elim (Bool-cases (ltb (c.init_time + env.time_config.agreement_time) now)) [
            | inl late ↦ inr (inl (t, ground arith))
            | inr timely ↦
                elim (Bool-cases (differ_by_more time c.init_time env.time_config.agreement_time)) [
                  | inl apart ↦ inr (inl (t, ground arith))
                  | inr near ↦
                      elim (Option-cases
                        (env.ethers.verify_message c.random_challenge_hash signature)) [
                          | inl unsigned ↦ inl (ground arith)
                          | inr (a, signed) ↦ inr (
                              inr (
                                a,
                                record {
                                  transport = t;
                                  challenge = c;
                                  sender = sender;
                                  outstanding = outstanding;
                                  in_time = ground arith;
                                  clocks_agree = near;
                                  signed = signed;
                                },
                                ground arith,
                              ))
                        ]
                ]
          ]
    ]
  ]

  -- If the maps agree with the profiles, then they do after `onInitHandshakeResponse`; and a profile whose handshake
  -- counts as completed after it is one from before, or the profile of an address that has signed the challenge that the
  -- sending transport was given, answered within the agreement time.
  pub on_init_handshake_response-IsAnswered :
      (signature : Signature) (time : ℕ) (preferred : TransportType) (s : PeerState)
      → IsConsistent s
      → let s' = (on_init_handshake_response env kind now signature time preferred s).1 in
        IsConsistent s'
        × ((q : ℕ) (y : PeerProfile)
            → get_elem? s'.profiles q ≡ some y
            → y.is_handshake_completed ≡ true
            → (get_elem? s.profiles q ≡ some y) ⊎ IsAnswered signature time s y.evm_address)
  on_init_handshake_response-IsAnswered signature time preferred s k =
      elim (response_state signature time preferred s) [
        | inl same ↦ rw same (k, λ q y at done. inl at)
        | inr (inl (t, removed)) ↦ rw removed (
          remove_connection-IsConsistent t s k,
          λ q y at done. inl (ground (arith, remove_connection-profiles t s)),
        )
        | inr (inr (a, answered, completed)) ↦
            let (consistent, adds) =
              complete_handshake-Adds env kind now answered.transport a preferred s k in
            rw completed (
              consistent,
              λ q y at done. elim (adds q y at done) [
                | inl before ↦ inl before
                | inr its_address ↦ inr (rw its_address answered)
              ],
            )
      ]

  -- Where a signature of this peer over a hash is found to be its own: if the challenge of a handshake request is the
  -- hash of an encoded block, whoever has sent it, and the clocks agree, then the response carries this peer's
  -- signature of the block, as a confirmation of the block carries it.
  pub on_init_handshake_request_signs :
      (b : Block) (time : ℕ) (t : Transport) (s : PeerState)
      → ((hash : Bytes)
          → env.ethers.verify_message hash (env.sign_message hash) ≡ some env.signer_address)
      → s.sender_transport ≡ some t
      → differ_by_more time now env.time_config.agreement_time ≡ false
      → let s' =
          (on_init_handshake_request env kind now
            (env.ethers.keccak256 (encode_block env.ethers b))
            time
            s).1 in
        (x : Signature) × (s'.effects
          ≡ s.effects ++ PeerEffect.send_handshake_response t x now s.preferred_transport ∷ [])
        × (x ≡ own_signature env b)
        × (retrieve_signer_address_block env.ethers b x ≡ ok env.signer_address)
  unfolding on_init_handshake_request answer_request retrieve_signer_address_block signed_by
  on_init_handshake_request_signs b time t s own sender near =
      let hash = env.ethers.keccak256 (encode_block env.ethers b) in
      (env.sign_message hash, ground arith, refl, ground (arith, own hash))
