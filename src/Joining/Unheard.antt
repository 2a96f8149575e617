-- ===== src/Joining/Unheard.antt =====
-- A participant counts its own signature under the address of the one who joins.
use state_channels_plus.Prelude.{
  ℕ, ◌≡◌, ◌≢◌, ◌⊎◌, refl, inl, inr, true, false, Bool-cases, Option-cases, Option, none, some, List,
  [], ◌∷◌, ◌==◌, if◌then◌else◌, any, arith,
}
use state_channels_plus.Prelude.Dict.{erase, lookup-erase}
use state_channels_plus.Data.{Bytes, Address, Signature}
use state_channels_plus.Joining.Collection.{
  Collected, Collections, get, has_key, is_signer, try_insert, did_everyone_sign,
}
use state_channels_plus.Joining.Service.{
  JoinChannel, SignedJoinChannel, JoinEnv, JoinState, retrieve_signer, sign_join_channel,
  accept_request, new_request, collect_confirmation, confirm_request, on_join_channel_request,
  prune,
}
use state_channels_plus.Joining.Laws.{try_insert_not_signer, not_everyone}

-- What a peer is called with: a message, at some time of the clock, with the participants of that time; or
-- a timer.
pub data JoinEvent : Type 0 where
  message : SignedJoinChannel → Option Signature → ℕ → List Address → JoinEvent
  expired : Bytes → JoinEvent

pub record IsUnheard (me : Address) (s : JoinState) : Type 0 where
  pub no_signature : (key : ℕ) → is_signer me (get key s.join_channel_map) ≡ false
  pub empty_queue : s.join_channel_queue ≡ []

module _ (e : JoinEnv) (me : Address) where
  abbrev pub handle : JoinEvent → JoinState → JoinState
  handle (message signed x now ps) = on_join_channel_request e signed x now ps
  handle (expired key) = prune e key

  abbrev pub handle_all : List JoinEvent → JoinState → JoinState
  handle_all [] s = s
  handle_all (event ∷ events) s = handle_all events (handle event s)

  -- The joiner is not this peer, this peer is among the participants, and the confirmation is not its own.
  abbrev pub IsForeign : JoinEvent → Type 0
  IsForeign (message signed x now ps) =
      (any (λ p. p == me) ps ≡ true)
      × ((jc : JoinChannel)
          → e.abi_decode signed.encoded_join_channel ≡ some jc
          → (jc.participant ≢ me)
            × ((y : Signature) → x ≡ some y → retrieve_signer e jc y ≢ some me))
  IsForeign (expired key) = Unit

  abbrev pub AreForeign : List JoinEvent → Type 0
  AreForeign [] = Unit
  AreForeign (event ∷ events) = IsForeign event × AreForeign events

  get-erase : (j k : Bytes) (m : Collections) → get j (erase k m) ≡ (if j == k then [] else get j m)
  unfolding get
  get-erase j k m = ground (arith, lookup-erase j k m)

  prune-IsUnheard : (key : Bytes) (s : JoinState) → IsUnheard me s → IsUnheard me (prune e key s)
  unfolding prune
  prune-IsUnheard key s k = record {
    no_signature = λ j. elim (Bool-cases (j == key)) [
      | inl same ↦ rw (get-erase j key s.join_channel_map, same) refl
      | inr other ↦ rw (get-erase j key s.join_channel_map, other) (k.no_signature j)
    ];
    empty_queue = k.empty_queue;
  }

  inserted-no_signature :
      (key : Bytes) (c : Collected) (s : JoinState)
      → c.signer_address ≢ me
      → IsUnheard me s
      → (j : ℕ) → is_signer me (get j (try_insert key c s.join_channel_map)) ≡ false
  inserted-no_signature key c s other k j =
      try_insert_not_signer me j key c s.join_channel_map other (k.no_signature j)
        (k.no_signature key)

  -- The outcomes of the parts of a call.
  new_request_state :
      (signed : SignedJoinChannel) (jc : JoinChannel) (now : ℕ) (s : JoinState)
      → (new_request e signed jc now s ≡ s)
        ⊎ (new_request e signed jc now s ≡ accept_request e signed jc now s)
  new_request_state signed jc now s = ground arith

  confirm_request_state :
      (signed : SignedJoinChannel) (jc : JoinChannel) (x : Signature) (ps : List Address)
      (s : JoinState)
      → (confirm_request e signed jc (some x) ps s ≡ s)
        ⊎ (signer : Address) × (retrieve_signer e jc x ≡ some signer)
          × (confirm_request e signed jc (some x) ps s
              ≡ collect_confirmation e signed ps
                  (try_insert signed.encoded_join_channel
                    (record { signer_address = signer; signature = x })
                    s.join_channel_map)
                  s)
  confirm_request_state signed jc x ps s = elim (Option-cases (retrieve_signer e jc x)) [
    | inl thrown ↦ inl (ground arith)
    | inr (signer, recovered) ↦ elim (Bool-cases (any (λ p. p == signer) ps)) [
      | inl among ↦ inr (signer, recovered, ground arith)
      | inr stranger ↦ inl (ground arith)
    ]
  ]

  request_state :
      (signed : SignedJoinChannel) (x : Option Signature) (now : ℕ) (ps : List Address)
      (s : JoinState)
      → (on_join_channel_request e signed x now ps s ≡ s)
        ⊎ (jc : JoinChannel) × (e.abi_decode signed.encoded_join_channel ≡ some jc)
          × ((on_join_channel_request e signed x now ps s ≡ new_request e signed jc now s)
              ⊎ (on_join_channel_request e signed x now ps s ≡ confirm_request e signed jc x ps s))
  unfolding on_join_channel_request
  request_state signed x now ps s = elim (Option-cases (e.abi_decode signed.encoded_join_channel)) [
    | inl thrown ↦ inl (ground arith)
    | inr (jc, decoded) ↦
        elim (Bool-cases (has_key signed.encoded_join_channel s.join_channel_map)) [
          | inl known ↦ inr (jc, decoded, inr (ground arith))
          | inr new ↦ inr (jc, decoded, inl (ground arith))
        ]
  ]

  new_request-IsUnheard :
      (signed : SignedJoinChannel) (jc : JoinChannel) (now : ℕ) (s : JoinState)
      → jc.participant ≢ me
      → IsUnheard me s
      → IsUnheard me (new_request e signed jc now s)
  new_request-IsUnheard signed jc now s other k =
      let mine : Collected = record {
        signer_address = jc.participant;
        signature = sign_join_channel e jc;
      } in
      let stored = inserted-no_signature signed.encoded_join_channel mine s other k in
      elim (new_request_state signed jc now s) [
        | inl same ↦ rw same k
        | inr accepted ↦ rw accepted (record { no_signature = stored; empty_queue = k.empty_queue })
      ]

  collect_confirmation-IsUnheard :
      (signed : SignedJoinChannel) (ps : List Address) (m : Collections) (s : JoinState)
      → any (λ p. p == me) ps ≡ true
      → ((j : ℕ) → is_signer me (get j m) ≡ false)
      → IsUnheard me s
      → IsUnheard me (collect_confirmation e signed ps m s)
  unfolding did_everyone_sign
  collect_confirmation-IsUnheard signed ps m s among missing k =
      rw
        (not_everyone me ps (get signed.encoded_join_channel m) among
          (missing signed.encoded_join_channel))
        (record { no_signature = missing; empty_queue = k.empty_queue })

  confirm_request-IsUnheard :
      (signed : SignedJoinChannel) (jc : JoinChannel) (x : Option Signature) (ps : List Address)
      (s : JoinState)
      → any (λ p. p == me) ps ≡ true
      → ((y : Signature) → x ≡ some y → retrieve_signer e jc y ≢ some me)
      → IsUnheard me s
      → IsUnheard me (confirm_request e signed jc x ps s)
  confirm_request-IsUnheard signed jc none ps s among foreign k = k
  confirm_request-IsUnheard signed jc (some x) ps s among foreign k =
      elim (confirm_request_state signed jc x ps s) [
        | inl same ↦ rw same k
        | inr (signer, recovered, collected) ↦
            let c : Collected = record { signer_address = signer; signature = x } in
            let other : signer ≢ me = λ h. foreign x refl (ground arith) in
            rw collected (
              collect_confirmation-IsUnheard signed ps
                (try_insert signed.encoded_join_channel c s.join_channel_map) s among
                (inserted-no_signature signed.encoded_join_channel c s other k) k)
      ]

  handle-IsUnheard :
      (event : JoinEvent) (s : JoinState)
      → IsForeign event
      → IsUnheard me s
      → IsUnheard me (handle event s)
  handle-IsUnheard (message signed x now ps) s (among, foreign) k =
      elim (request_state signed x now ps s) [
        | inl same ↦ rw same k
        | inr (jc, decoded, inl new) ↦
            rw new (new_request-IsUnheard signed jc now s (foreign jc decoded).0 k)
        | inr (jc, decoded, inr known) ↦
            rw known (confirm_request-IsUnheard signed jc x ps s among (foreign jc decoded).1 k)
      ]
  handle-IsUnheard (expired key) s foreign k = prune-IsUnheard key s k

  -- As long as no confirmation with this peer's own signature comes in from another peer, this peer, a participant,
  -- completes no request of anybody else to join, whoever has confirmed it: its queue stays empty, and no
  -- array has a signature under its address.
  pub handle_all-IsUnheard :
      (events : List JoinEvent) (s : JoinState)
      → AreForeign events
      → IsUnheard me s
      → IsUnheard me (handle_all events s)
  handle_all-IsUnheard [] s foreign k = k
  handle_all-IsUnheard (event ∷ events) s (now, later) k =
      handle_all-IsUnheard events (handle event s) later (handle-IsUnheard event s now k)
