-- ===== src/Manager/Authored.antt =====
-- What `playTransaction` does to the agreements.
use state_channels_plus.Prelude.{
  ℕ, ◌≡◌, ◌⊎◌, refl, sym, inl, inr, ok, arith, Bool-cases, Result-cases,
}
use state_channels_plus.Data.{Bytes, Signature, Transaction, Block, get_fork, get_height}
use state_channels_plus.Forks.{add_block}
use state_channels_plus.Manager.State.{Env, ManagerState}
use state_channels_plus.Manager.Validation.{is_my_turn}
use state_channels_plus.Manager.Decisions.{own_signature, on_success_common}
use state_channels_plus.Manager.Author.{adjust_timestamp, author_block, play_body}

module _ {M : Type 0} (env : Env M) (now : ℕ) where
  -- The forks are as they were, or with a block at the given place that names the hash of its state.
  abbrev pub Authored : ℕ → ℕ → ManagerState M → ManagerState M → Type 0
  Authored f h s s' =
      (s'.agreements.forks ≡ s.agreements.forks)
      ⊎ (b : Block) × (x : Signature) × (state : Bytes) × (get_fork b ≡ f)
        × (get_height b ≡ h)
        × (b.state_hash ≡ env.ethers.keccak256 state)
        × (add_block b x state s.agreements.forks ≡ ok s'.agreements.forks)

  author_block-Authored :
      (tx : Transaction) (s : ManagerState M)
      → Authored tx.header.fork_cnt tx.header.transaction_cnt s (author_block env now tx s).1
  unfolding author_block on_success_common
  author_block-Authored tx s =
      let after = env.machine.state_transition tx s.machine in
      let state = env.machine.get_state after.1 in
      let b : Block = record {
        transaction = tx;
        state_hash = env.ethers.keccak256 state;
        previous_state_hash = env.ethers.keccak256 (env.machine.get_state s.machine);
      } in
      let x = own_signature env b in
      elim (Bool-cases after.0) [
        | inr failed ↦ inl (ground arith)
        | inl done ↦ elim (Result-cases (add_block b x state s.agreements.forks)) [
          | inr (err, thrown) ↦ inl (ground arith)
          | inl (forks, added) ↦ inr (b, x, state, refl, refl, refl, ground arith)
        ]
      ]

  adjust_timestamp-place :
      (tx tx' : Transaction) (s : ManagerState M)
      → adjust_timestamp env now tx s ≡ ok tx'
      → (tx'.header.fork_cnt ≡ tx.header.fork_cnt)
        × (tx'.header.transaction_cnt ≡ tx.header.transaction_cnt)
  unfolding adjust_timestamp
  adjust_timestamp-place tx tx' s h = (ground arith, ground arith)

  pub play_body-Authored :
      (tx : Transaction) (s : ManagerState M)
      → Authored tx.header.fork_cnt tx.header.transaction_cnt s (play_body env now tx s).1
  unfolding play_body
  play_body-Authored tx s = elim (Bool-cases (is_my_turn env now s)) [
    | inr waits ↦ inl (ground arith)
    | inl turn ↦ elim (Result-cases (adjust_timestamp env now tx s)) [
      | inr (err, thrown) ↦ inl (ground arith)
      | inl (tx', adjusted) ↦
          let (same_fork, same_height) = adjust_timestamp-place tx tx' s adjusted in
          let same : (play_body env now tx s).1 ≡ (author_block env now tx' s).1 = ground arith in
          rw (same, sym same_fork, sym same_height) (author_block-Authored tx' s)
    ]
  ]
