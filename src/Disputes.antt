-- ===== src/Disputes.antt =====
-- src/DisputeHandler.ts: the disputes that a peer opens and its answers to those of others. The
-- contract of the channel is a parameter. A call that awaits another is the sequence of the two.
pub mod Room
pub mod Rechallenge
pub mod Opening
use state_channels_plus.Prelude.{
  ℕ, zero, suc, Bool, true, false, not, Option, none, some, List, [], ◌∷◌, ◌++◌, ◌==◌, ltb, at_last,
  if◌then◌else◌, Result, ok, throw, Error,
}
use state_channels_plus.Prelude.Dict.{Dict, lookup, insert}
use state_channels_plus.Prelude.Action.{Action, pure, raise, reads, gets, modify, ◌>>=◌, ◌>>◌}
use state_channels_plus.Data.{
  Ethers, Bytes, Address, Block, SignedBlock, decode_block, get_fork, get_height,
}
use state_channels_plus.AgreementTypes.{Forks}
use state_channels_plus.Retry.{RetryConfig, retry}
use state_channels_plus.Agreement.{LatestVotes, get_finalized_and_latest_with_votes}
use state_channels_plus.Proofs.{
  Proof, ProofCoder, Dispute, BigNumberish, number, to_number, zero_address,
  create_fold_rechallenge_proof, create_fold_prior_block_proof,
  create_block_too_far_in_future_proof, create_newer_state_proof, filter_valid_proofs,
}

-- The maps of the handler, by fork.
pub record DisputeState : Type 0 where
  pub local_proofs : Dict (List Proof)
  pub disputes : Dict Dispute
  pub disputed_forks : Dict Bool

abbrev pub or_false : Option Bool → Bool
or_false none = false
or_false (some b) = b

abbrev pub or_empty : Option (List Proof) → List Proof
or_empty none = []
or_empty (some ps) = ps

unfoldable pub set_fork_disputed : ℕ → DisputeState → DisputeState
set_fork_disputed fork_cnt d = record d { disputed_forks = insert fork_cnt true d.disputed_forks }

unfoldable pub is_fork_disputed : ℕ → DisputeState → Bool
is_fork_disputed fork_cnt d = or_false (lookup fork_cnt d.disputed_forks)

unfoldable pub add_proof : ℕ → Proof → DisputeState → DisputeState
add_proof fork_cnt p d = record d {
  local_proofs =
      insert fork_cnt (or_empty (lookup fork_cnt d.local_proofs) ++ p ∷ []) d.local_proofs;
}

-- `proofs.forEach((proof) => this.addProof(forkCnt, proof))`
unfoldable pub add_proofs : ℕ → List Proof → DisputeState → DisputeState
add_proofs fork_cnt [] d = d
add_proofs fork_cnt (p ∷ ps) d = add_proofs fork_cnt ps (add_proof fork_cnt p d)

unfoldable pub should_update_dispute : Dispute → DisputeState → Bool
should_update_dispute dispute d = elim (lookup (to_number dispute.fork_cnt) d.disputes) [
  | none ↦ true
  | some existing ↦ ltb (to_number existing.challenge_cnt) (to_number dispute.challenge_cnt)
]

unfoldable pub update_dispute_if_newer : Dispute → DisputeState → Bool × DisputeState
unfolding should_update_dispute
update_dispute_if_newer dispute d =
    if should_update_dispute dispute d
    then (true, record d { disputes = insert (to_number dispute.fork_cnt) dispute d.disputes })
    else (false, d)

-- What `createDispute` does before it first waits.
unfoldable pub start_dispute : ℕ → List Proof → DisputeState → DisputeState
unfolding add_proofs set_fork_disputed
start_dispute fork_cnt proofs d = add_proofs fork_cnt proofs (set_fork_disputed fork_cnt d)

-- The contract as the handler sees it, over a state of the chain: the arguments of its two
-- transactions beside the channel, and the dispute that it then reports. `create` says by its
-- Boolean whether the transaction went through; a revert of a challenge is swallowed.
pub record Contract (W : Type 0) : Type 0 where
  pub get_dispute : Bytes → W → Dispute
  pub create : ℕ → LatestVotes → Address → ℕ → List Proof → W → Bool × W
  pub challenge : ℕ → ℕ → List Proof → LatestVotes → W → W

-- The handler, the agreements that it reads, and the chain.
pub record HandlerState (W : Type 0) : Type 0 where
  pub handler : DisputeState
  pub forks : Forks
  pub chain : W

-- `ethers.ZeroHash`
abbrev pub zero_hash : Bytes
zero_hash = 0

-- "Current implementation retries once"
abbrev pub create_retries : RetryConfig
create_retries = record {
  max_retries = 1;
  delay_ms = 0;
  use_exponential_backoff = false;
  backoff_factor = 2;
}

abbrev pub is_empty_list : List Proof → Bool
is_empty_list [] = true
is_empty_list (_ ∷ _) = false

module _ (e : Ethers) (coder : ProofCoder) (now : ℕ) where
  unfoldable pub get_last_transaction_count : Dispute → Result ℕ
  get_last_transaction_count dispute = elim (at_last dispute.virtual_voting_blocks) [
    | none ↦ ok 0
    | some vote ↦ elim (decode_block e vote.encoded_block) [
      | ok b ↦ ok (get_height b)
      | throw err ↦ throw err
    ]
  ]

  abbrev pub add_if_any : ℕ → Option Proof → DisputeState → DisputeState
  add_if_any fork_cnt none d = d
  add_if_any fork_cnt (some p) d = add_proof fork_cnt p d

  module _ {W : Type 0} where
    abbrev pub on_handler : (DisputeState → DisputeState) → HandlerState W → HandlerState W
    on_handler f h = record h { handler = f h.handler }

    unfoldable pub extract_timeout_proof : Dispute → Action (HandlerState W) (Unit {0})
    extract_timeout_proof dispute =
        if not (dispute.timedout_participant == zero_address)
        then (do
          p ← reads (λ h.
              create_fold_rechallenge_proof e coder h.forks (to_number dispute.fork_cnt)
                (to_number dispute.folded_transaction_cnt))
          modify (on_handler (add_if_any (to_number dispute.fork_cnt) p)))
        else pure tt

    unfoldable pub extract_proofs : Dispute → Action (HandlerState W) (List Proof)
    unfolding extract_timeout_proof
    extract_proofs dispute = do
      extract_timeout_proof dispute
      last ← reads (λ h. get_last_transaction_count dispute)
      newer ← reads (λ h.
          create_newer_state_proof e coder h.forks (to_number dispute.fork_cnt)
            dispute.posted_state_disputer last)
      modify (on_handler (add_if_any (to_number dispute.fork_cnt) newer))
      reads (λ h.
          filter_valid_proofs e coder now dispute
            (or_empty (lookup (to_number dispute.fork_cnt) h.handler.local_proofs)))

    module _ (contract : Contract W) (channel_id : Bytes) (signer_address : Address) where
      -- The `try` of `rechallengeRecursive`: whatever fails in it is dropped.
      unfoldable pub try_challenge : Dispute → List Proof → HandlerState W → HandlerState W
      try_challenge dispute proofs h =
          elim (get_finalized_and_latest_with_votes e (to_number dispute.fork_cnt) signer_address
            h.forks) [
              | throw err ↦ h
              | ok votes ↦ record h {
                chain =
                    contract.challenge (to_number dispute.fork_cnt)
                      (suc (to_number dispute.challenge_cnt)) proofs votes h.chain;
              }
            ]

      -- A call ends with its result and the state, or with `none` when the fuel is used up.
      abbrev pub Ended : Type 0
      Ended = Option (Result (Unit {0}) × HandlerState W)

      -- `rechallengeRecursive` on fuel.
      unfoldable pub rechallenge : ℕ → Dispute → HandlerState W → Ended
      rechallenge zero dispute h = none
      rechallenge (suc fuel) dispute h =
          let (newer, d) = update_dispute_if_newer dispute h.handler in
          let h1 = record h { handler = d } in
          elim newer [
            | false ↦ some (ok tt, h1)
            | true ↦
                let (r, h2) = extract_proofs dispute h1 in
                elim r [
                  | throw err ↦ some (throw err, h2)
                  | ok proofs ↦ elim (is_empty_list proofs) [
                    | true ↦ some (ok tt, h2)
                    | false ↦
                        let h3 = try_challenge dispute proofs h2 in
                        let next = contract.get_dispute dispute.channel_id h3.chain in
                        elim (to_number next.challenge_cnt == to_number dispute.challenge_cnt) [
                          | true ↦ some (throw Error.challenge_failed, h3)
                          | false ↦ rechallenge fuel next h3
                        ]
                  ]
                ]
          ]

      -- The transaction that `createNewDispute` retries.
      abbrev pub send_create : ℕ → LatestVotes → Address → ℕ → List Proof → Action W (Unit {0})
      send_create fork_cnt votes folded folded_cnt proofs w =
          let (done, w') = contract.create fork_cnt votes folded folded_cnt proofs w in
          if done then (ok tt, w') else (throw Error.create_failed, w')

      unfoldable pub create_new_dispute :
          ℕ → Address → ℕ → List Proof → Action (HandlerState W) (Unit {0})
      create_new_dispute fork_cnt folded folded_cnt proofs = do
        votes ← reads (λ h. get_finalized_and_latest_with_votes e fork_cnt signer_address h.forks)
        (λ h.
            let (r, w, events) =
              retry (send_create fork_cnt votes folded folded_cnt proofs) create_retries h.chain in
            (r, record h { chain = w }))

      unfoldable pub create_if_none :
          ℕ → Address → ℕ → List Proof → Action (HandlerState W) (Unit {0})
      unfolding create_new_dispute
      create_if_none fork_cnt folded folded_cnt proofs h =
          elim (lookup fork_cnt h.handler.disputes) [
            | none ↦ create_new_dispute fork_cnt folded folded_cnt proofs h
            | some _ ↦ (ok tt, h)
          ]

      -- `createDispute` up to the dispute that it reads back from the chain.
      unfoldable pub open_dispute : ℕ → Address → ℕ → List Proof → Action (HandlerState W) Dispute
      unfolding create_if_none
      open_dispute fork_cnt folded folded_cnt proofs = do
        modify (on_handler (start_dispute fork_cnt proofs))
        create_if_none fork_cnt folded folded_cnt proofs
        h' ← reads ok
        let dispute = contract.get_dispute channel_id h'.chain
        if dispute.channel_id == zero_hash then raise Error.no_dispute_created else pure dispute

      unfoldable pub create_dispute : ℕ → ℕ → Address → ℕ → List Proof → HandlerState W → Ended
      unfolding open_dispute
      create_dispute fuel fork_cnt folded folded_cnt proofs h =
          let (r, h') = open_dispute fork_cnt folded folded_cnt proofs h in
          elim r [ throw err ↦ some (throw err, h') | ok dispute ↦ rechallenge fuel dispute h' ]

      -- `onDispute`, for a dispute that the chain reports.
      unfoldable pub on_dispute : ℕ → Dispute → HandlerState W → Ended
      on_dispute fuel dispute h =
          rechallenge fuel dispute (on_handler (set_fork_disputed (to_number dispute.fork_cnt)) h)

      -- `NO_PARTICIPANT_TO_FOLD`, which is "0x00", and `INITIAL_TRANSACTION_COUNT`.
      abbrev pub dispute_with : ℕ → ℕ → Proof → HandlerState W → Ended
      dispute_with fuel fork_cnt p = create_dispute fuel fork_cnt 0 0 (p ∷ [])

      unfoldable pub dispute_fold_rechallenge : ℕ → ℕ → ℕ → HandlerState W → Ended
      unfolding create_dispute
      dispute_fold_rechallenge fuel fork_cnt transaction_cnt h =
          elim (create_fold_rechallenge_proof e coder h.forks fork_cnt transaction_cnt) [
            | throw err ↦ some (throw err, h)
            | ok none ↦ some (ok tt, h)
            | ok (some p) ↦ dispute_with fuel fork_cnt p h
          ]

      unfoldable pub dispute_fold_prior_block : ℕ → ℕ → ℕ → HandlerState W → Ended
      unfolding create_dispute
      dispute_fold_prior_block fuel fork_cnt transaction_cnt =
          dispute_with fuel fork_cnt (create_fold_prior_block_proof e coder transaction_cnt)

      unfoldable pub dispute_block_too_far_in_future : ℕ → SignedBlock → HandlerState W → Ended
      unfolding create_dispute
      dispute_block_too_far_in_future fuel signed h = elim (decode_block e signed.encoded_block) [
        | throw err ↦ some (throw err, h)
        | ok b ↦
            dispute_with fuel (get_fork b) (create_block_too_far_in_future_proof e coder signed) h
      ]
