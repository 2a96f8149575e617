-- ===== src/Joining/Service.antt =====
-- src/rpc/services/JoinChannelService.ts
use state_channels_plus.Prelude.{
  ℕ, ◌-◌, not, Option, none, some, List, [], ◌∷◌, ◌++◌, ◌==◌, leb, if◌then◌else◌, any, map,
}
use state_channels_plus.Prelude.Dict.{erase}
use state_channels_plus.Data.{Bytes, Address, Signature}
use state_channels_plus.Joining.Collection.{
  Collections, get, has_key, try_insert, did_everyone_sign,
}

-- The struct of contracts/V1/DataTypes.sol.
pub record JoinChannel : Type 0 where
  pub channel_id : Bytes
  pub participant : Address
  pub amount : ℕ
  pub deadline_timestamp : ℕ
  pub payload : Bytes

pub record SignedJoinChannel : Type 0 where
  pub encoded_join_channel : Bytes
  pub signature : Signature

-- What the service uses of the library ethers (coding, hash, and the recovery of a signer, which throw on
-- bad input), and the signer.
pub record JoinEnv : Type 0 where
  pub abi_encode : JoinChannel → Bytes
  pub abi_decode : Bytes → Option JoinChannel
  pub keccak256 : Bytes → Bytes
  pub verify_message : Bytes → Signature → Option Address
  pub sign_message : Bytes → Signature

pub record JoinConfirmation : Type 0 where
  pub signed_join_channel : SignedJoinChannel
  pub confirmation_signatures : List Signature

-- What a call sends to all peers, and the deletion that it schedules after some seconds.
pub data JoinEffect : Type 0 where
  broadcast_join : SignedJoinChannel → Signature → JoinEffect
  prune_later : Bytes → ℕ → JoinEffect

pub record JoinState : Type 0 where
  pub join_channel_map : Collections
  pub join_channel_queue : List JoinConfirmation
  pub effects : List JoinEffect

module _ (e : JoinEnv) where
  -- `retrieveSignerAddressJoinChannel`; nothing when ethers throws.
  abbrev pub retrieve_signer : JoinChannel → Signature → Option Address
  retrieve_signer jc x = e.verify_message (e.keccak256 (e.abi_encode jc)) x

  abbrev pub sign_join_channel : JoinChannel → Signature
  sign_join_channel jc = e.sign_message (e.keccak256 (e.abi_encode jc))

  -- The request is new to this peer.
  abbrev pub accept_request : SignedJoinChannel → JoinChannel → ℕ → JoinState → JoinState
  accept_request signed jc now s =
      let key = signed.encoded_join_channel in
      let mine = sign_join_channel jc in
      record s {
        join_channel_map =
            try_insert key (record { signer_address = jc.participant; signature = mine })
              s.join_channel_map;
        effects =
            s.effects
            ++ broadcast_join signed mine ∷ prune_later key (jc.deadline_timestamp - now) ∷ [];
      }

  abbrev pub new_request : SignedJoinChannel → JoinChannel → ℕ → JoinState → JoinState
  new_request signed jc now s =
      if leb (jc.deadline_timestamp) now then s else elim (retrieve_signer jc signed.signature) [
        | none ↦ s
        | some signer ↦ if jc.participant == signer then accept_request signed jc now s else s
      ]

  -- The end of the confirmation logic, on the map with the confirmation.
  abbrev pub collect_confirmation :
      SignedJoinChannel → List Address → Collections → JoinState → JoinState
  collect_confirmation signed participants m s =
      let key = signed.encoded_join_channel in
      let s1 : JoinState = record s { join_channel_map = m } in
      if not (did_everyone_sign key participants m) then s1 else record s1 {
        join_channel_queue =
            s.join_channel_queue
            ++ record {
              signed_join_channel = signed;
              confirmation_signatures = map (λ c. c.signature) (get key m);
            }
              ∷ [];
      }

  abbrev pub confirm_request :
      SignedJoinChannel → JoinChannel → Option Signature → List Address → JoinState → JoinState
  confirm_request signed jc none participants s = s
  confirm_request signed jc (some x) participants s = elim (retrieve_signer jc x) [
    | none ↦ s
    | some signer ↦
        if not (any (λ p. p == signer) participants)
        then s
        else collect_confirmation signed participants
            (try_insert signed.encoded_join_channel
              (record { signer_address = signer; signature = x }) s.join_channel_map)
            s
  ]

  -- `onJoinChannelRequest`: whatever throws in it is caught and dropped. The participants are the current
  -- ones of the state machine.
  unfoldable pub on_join_channel_request :
      SignedJoinChannel → Option Signature → ℕ → List Address → JoinState → JoinState
  on_join_channel_request signed confirmation now participants s =
      elim (e.abi_decode signed.encoded_join_channel) [
        | none ↦ s
        | some jc ↦
            if not (has_key signed.encoded_join_channel s.join_channel_map)
            then new_request signed jc now s
            else confirm_request signed jc confirmation participants s
      ]

  -- The scheduled `this.joinChannelMap.delete(key)`.
  unfoldable pub prune : Bytes → JoinState → JoinState
  prune key s = record s { join_channel_map = erase key s.join_channel_map }
