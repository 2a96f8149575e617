-- ===== src/Manager/Invariant.antt =====
-- The invariant of the agreements, which every call keeps.
use state_channels_plus.Prelude.{ℕ}
use state_channels_plus.Data.{Block, SignedBlock}
use state_channels_plus.Forks.Ordered.{IsOrdered}
use state_channels_plus.Forks.Hashed.{IsHashed}
use state_channels_plus.Ledger.Valid.{Changes-IsValid}
use state_channels_plus.Manager.State.{Env, ManagerState}
use state_channels_plus.Manager.Calls.{on_signed_block}
use state_channels_plus.Manager.Changes.{Follows, on_signed_block-Follows}

-- The agreements of a fork stand in order, and each names the hash of its state.
pub record IsValid {M : Type 0} (env : Env M) (s : ManagerState M) : Type 0 where
  pub ordered : IsOrdered s.agreements.forks
  pub hashed : IsHashed env.ethers.keccak256 s.agreements.forks

module _ {M : Type 0} (env : Env M) where
  pub Follows-IsValid : (s t : ManagerState M) → Follows env s t → IsValid env s → IsValid env t
  Follows-IsValid s t c k =
      let (o, h) = Changes-IsValid env.ethers c k.ordered k.hashed in
      record { ordered = o; hashed = h }

module _ {M : Type 0} (env : Env M) (now : ℕ) where
  -- A call of `onSignedBlock`, whatever its block and whatever its outcome (a flag, an error, or a wait
  -- for the mutex), keeps the agreements of each fork in order and hashed right.
  pub on_signed_block-IsValid :
      (signed : SignedBlock) (b : Block) (s : ManagerState M)
      → IsValid env s
      → IsValid env (on_signed_block env now signed b s).1
  on_signed_block-IsValid signed b s k =
      Follows-IsValid env s (on_signed_block env now signed b s).1
        (on_signed_block-Follows env now signed b s) k
