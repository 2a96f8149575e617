-- ===== src/Ledger/Changes.antt =====
-- The ways in which the forks of a peer change: every operation on them is a sequence of these.
use state_channels_plus.Prelude.{ℕ, ◌≡◌, ok, some, length, List}
use state_channels_plus.Data.{Ethers, Bytes, Address, Signature, Block, get_fork, get_height}
use state_channels_plus.AgreementTypes.{AgreementFork, Forks}
use state_channels_plus.Forks.{new_fork, add_block, add_chain_block, fork_at}
use state_channels_plus.Agreement.{confirm_block}

-- The next height of a fork, if there is such a fork.
abbrev pub IsNext : Forks → ℕ → ℕ → Type 0
IsNext fs f h = (fk : AgreementFork) → fork_at fs f ≡ some fk → h ≡ length fk.agreements

module _ (e : Ethers) where
  -- One operation of `ForkService` or `AgreementManager` that went through. A block is added at the
  -- end of its fork, with a state whose hash it names.
  pub data Change : Forks → Forks → Type 0 where
    opened :
        (g : Bytes) (addresses : List Address) (cnt ts : ℕ) (fs : Forks)
        → Change fs (new_fork g addresses cnt ts fs)
    added :
        {fs gs : Forks} (b : Block) (x : Signature) (state : Bytes)
        → IsNext fs (get_fork b) (get_height b)
        → b.state_hash ≡ e.keccak256 state
        → add_block b x state fs ≡ ok gs
        → Change fs gs
    confirmed :
        {fs gs : Forks} (b : Block) (x : Signature) → confirm_block e b x fs ≡ ok gs → Change fs gs
    posted :
        {fs gs : Forks} (f t : ℕ) (p : Address) (ts : ℕ)
        → add_chain_block f t p ts fs ≡ ok gs
        → Change fs gs

  pub data Changes (fs : Forks) : Forks → Type 0 where
    still : Changes fs fs
    also : {gs hs : Forks} → Changes fs gs → Change gs hs → Changes fs hs

  pub Changes-join : {fs gs hs : Forks} → Changes fs gs → Changes gs hs → Changes fs hs
  Changes-join c still = c
  Changes-join c (also d x) = also (Changes-join c d) x

  pub one_change : {fs gs : Forks} → Change fs gs → Changes fs gs
  one_change c = also still c

  pub no_change : (fs gs : Forks) → gs ≡ fs → Changes fs gs
  no_change fs gs h = rw h still
