-- ===== src/Manager/Authoring.antt =====
-- What `playTransaction` does to the mutex.
use state_channels_plus.Prelude.{ℕ, ◌≡◌, inl, inr, arith, Result-cases, Result, some}
use state_channels_plus.Data.{Transaction, SignedBlock}
use state_channels_plus.Mutex.{lock, unlock}
use state_channels_plus.Manager.Locking.{IsFree}
use state_channels_plus.Manager.State.{Env, Waiter, ManagerState}
use state_channels_plus.Manager.Decisions.{on_success_common}
use state_channels_plus.Manager.Author.{adjust_timestamp, author_block, play_body, play_transaction}

module _ {M : Type 0} (env : Env M) (now : ℕ) where
  author_block-mutex :
      (tx : Transaction) (s : ManagerState M) → (author_block env now tx s).1.mutex ≡ s.mutex
  unfolding author_block on_success_common
  author_block-mutex tx s = ground arith

  play_body-mutex :
      (tx : Transaction) (s : ManagerState M) → (play_body env now tx s).1.mutex ≡ s.mutex
  unfolding play_body
  play_body-mutex tx s = elim (Result-cases (adjust_timestamp env now tx s)) [
    | inr (err, thrown) ↦ ground arith
    | inl (tx', adjusted) ↦ ground (arith, author_block-mutex tx' s)
  ]

  -- A call of `playTransaction` on a free mutex ends with a block or a throw, and leaves the mutex free in
  -- both cases.
  pub play_transaction-IsFree :
      (tx : Transaction) (s : ManagerState M)
      → IsFree s
      → (r : Result SignedBlock) × ((play_transaction env now tx s).0 ≡ some r)
        × IsFree (play_transaction env now tx s).1
  unfolding play_transaction lock unlock
  play_transaction-IsFree tx s free =
      let s1 : ManagerState M = record s { mutex = (lock (Waiter.played tx) s.mutex).1 } in
      let same = play_body-mutex tx s1 in
      (
        (play_body env now tx s1).0,
        ground arith,
        record { unlocked = ground arith; nobody = ground arith },
      )
