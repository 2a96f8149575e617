-- ===== src/Manager/Entries.antt =====
-- What the entry points of the manager other than `onSignedBlock` do to the agreements.
use state_channels_plus.Prelude.{
  ℕ, ◌≡◌, ◌⊎◌, refl, inl, inr, Result, ok, throw, arith, Bool-cases, Result-cases,
}
use state_channels_plus.Data.{
  Bytes, Address, Signature, Block, SignedBlock, AgreementFlag, decode_block, get_fork, get_height,
  get_block_author,
}
use state_channels_plus.AgreementTypes.{AgreementState}
use state_channels_plus.Forks.{new_fork, add_chain_block}
use state_channels_plus.Validator.{check}
use state_channels_plus.Queues.{queue_block}
use state_channels_plus.OnChain.{has_posted, collect, collect_flagged, record_post}
use state_channels_plus.Agreement.{confirm_block, collect_on_chain_block as collect_block}
use state_channels_plus.Manager.State.{Env, ManagerState, ValidationResult}
use state_channels_plus.Manager.Decisions.{on_success_common, process_confirmation_decision}
use state_channels_plus.Manager.Calls.{on_signed_block, validate_confirmation, finish_confirmation}
use state_channels_plus.Manager.Author.{collect_on_chain_block, set_state, try_timeout_participant}

module _ {M : Type 0} (env : Env M) (now : ℕ) where
  pub validate_confirmation-state :
      (signed : SignedBlock) (x : Signature) (b : Block) (s : ManagerState M)
      → ((validate_confirmation env now signed x b s).1 ≡ s)
        ⊎ ((validate_confirmation env now signed x b s).1 ≡ (on_signed_block env now signed b s).1)
  unfolding validate_confirmation
  validate_confirmation-state signed x b s = ground arith

  pub finish_confirmation-forks :
      (b : Block) (x : Signature) (r : Result ValidationResult) (s : ManagerState M)
      → ((finish_confirmation env now b x r s).1.agreements.forks ≡ s.agreements.forks)
        ⊎ (confirm_block env.ethers b x s.agreements.forks
            ≡ ok (finish_confirmation env now b x r s).1.agreements.forks)
  unfolding finish_confirmation process_confirmation_decision
  finish_confirmation-forks b x (throw err) s = inl (ground arith)
  finish_confirmation-forks b x (ok v) s =
      elim (Result-cases (confirm_block env.ethers b x s.agreements.forks)) [
        | inr (err, thrown) ↦ inl (ground arith)
        | inl (forks, done) ↦ elim (Bool-cases v.success) [
          | inr unsuccessful ↦ inl (ground arith)
          | inl good ↦ inr (ground arith)
        ]
      ]

  pub set_state-forks :
      (encoded : Bytes) (fork_cnt ts : ℕ) (s : ManagerState M)
      → (set_state env now encoded fork_cnt ts s).1.agreements.forks
        ≡ new_fork encoded
            (env.machine.get_participants (env.machine.set_state encoded s.machine))
            fork_cnt
            ts
            s.agreements.forks
  unfolding set_state on_success_common
  set_state-forks encoded fork_cnt ts s = ground arith

  pub try_timeout_participant-forks :
      (fork_cnt tx_cnt : ℕ) (p : Address) (s : ManagerState M)
      → (try_timeout_participant env now fork_cnt tx_cnt p s).1.agreements.forks
        ≡ s.agreements.forks
  unfolding try_timeout_participant
  try_timeout_participant-forks fork_cnt tx_cnt p s = ground arith

  -- The forks are as they were, or with one more post.
  abbrev pub MorePosts : ℕ → AgreementState → AgreementState → Type 0
  MorePosts ts a a' =
      (a'.forks ≡ a.forks)
      ⊎ (f t : ℕ) × (p : Address) × (add_chain_block f t p ts a.forks ≡ ok a'.forks)

  record_post-MorePosts :
      (signed : SignedBlock) (ts : ℕ) (a : AgreementState)
      → MorePosts ts a (record_post env.ethers signed ts a).1
  unfolding record_post
  record_post-MorePosts signed ts a =
      elim (Result-cases (decode_block env.ethers signed.encoded_block)) [
        | inr (err, thrown) ↦ inl (ground arith)
        | inl (b, decoded) ↦
            let f = get_fork b in
            let t = get_height b in
            let p = get_block_author b in
            elim (Bool-cases (has_posted a.forks f t p)) [
              | inl posted ↦ inl (ground arith)
              | inr first ↦ elim (Result-cases (add_chain_block f t p ts a.forks)) [
                | inr (err, thrown) ↦ inl (ground arith)
                | inl (forks, added) ↦ inr (f, t, p, ground arith)
              ]
            ]
      ]

  queued_post-MorePosts :
      (flag : AgreementFlag) (signed : SignedBlock) (ts : ℕ) (a : AgreementState)
      → MorePosts ts a (collect_flagged env.ethers flag signed ts a).1
  unfolding collect_flagged
  queued_post-MorePosts AgreementFlag.invalid_signature signed ts a = inl refl
  queued_post-MorePosts AgreementFlag.incorrect_data signed ts a = inl refl
  queued_post-MorePosts AgreementFlag.double_sign signed ts a = inl refl
  queued_post-MorePosts AgreementFlag.duplicate signed ts a =
      ground (arith, record_post-MorePosts signed ts a)
  queued_post-MorePosts flag signed ts a =
      elim (Result-cases (queue_block env.ethers signed a.block_q)) [
        | inr (err, thrown) ↦ inl (ground arith)
        | inl (q, queued) ↦
            ground (arith, record_post-MorePosts signed ts (record a { block_q = q }))
      ]

  pub collect-MorePosts :
      (signed : SignedBlock) (ts : ℕ) (a : AgreementState)
      → MorePosts ts a (collect_block env.ethers signed ts a).1
  unfolding collect_block collect
  collect-MorePosts signed ts a = elim (Result-cases (check env.ethers a signed)) [
    | inr (err, thrown) ↦ inl (ground arith)
    | inl (flag, said) ↦ ground (arith, queued_post-MorePosts flag signed ts a)
  ]

  pub collect_on_chain_block-forks :
      (signed : SignedBlock) (ts : ℕ) (s : ManagerState M)
      → (collect_on_chain_block env now signed ts s).1.agreements
        ≡ (collect_block env.ethers signed ts s.agreements).1
  unfolding collect_on_chain_block on_success_common
  collect_on_chain_block-forks signed ts s = ground arith
