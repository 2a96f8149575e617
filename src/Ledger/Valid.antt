-- ===== src/Ledger/Valid.antt =====
-- What each change of the forks keeps: the order of the agreements and the hashes of their states.
use state_channels_plus.Prelude.{ℕ, ◌≡◌, some, ok, length, arith}
use state_channels_plus.Data.{Ethers, Signature, Block, get_fork, get_height}
use state_channels_plus.AgreementTypes.{AgreementFork, Forks}
use state_channels_plus.Forks.{
  fork_at, get_agreement_by_block, get_latest_fork_cnt, get_next_block_height,
}
use state_channels_plus.Forks.Lookup.{get_agreement-add_chain_block}
use state_channels_plus.Forks.Ordered.{
  IsOrdered, add_block_ok, add_block-IsOrdered, new_fork-IsOrdered, add_chain_block-IsOrdered,
}
use state_channels_plus.Forks.Hashed.{IsHashed, new_fork-IsHashed, add_block-IsHashed}
use state_channels_plus.Agreement.{confirm_block}
use state_channels_plus.Agreement.Confirm.{confirm_block_effect}
use state_channels_plus.Ledger.Changes.{
  Change, opened, added, confirmed, posted, Changes, still, also,
}

-- At the next height of the latest fork the fork's list of agreements ends.
pub next_height-length :
    (forks : Forks) (f h : ℕ) (fk : AgreementFork)
    → f ≡ get_latest_fork_cnt forks
    → h ≡ get_next_block_height forks
    → fork_at forks f ≡ some fk
    → h ≡ length fk.agreements
unfolding get_latest_fork_cnt get_next_block_height
next_height-length forks f h fk ef eh found = ground arith

module _ (e : Ethers) where
  confirm_block-IsHashed :
      (b : Block) (x : Signature) (forks forks' : Forks)
      → IsOrdered forks
      → IsHashed e.keccak256 forks
      → confirm_block e b x forks ≡ ok forks'
      → IsHashed e.keccak256 forks'
  unfolding get_agreement_by_block
  confirm_block-IsHashed b x forks forks' o k h =
      let (ag, stored, fresh, view, rest, count, ordered) =
        confirm_block_effect e b x forks forks' o h in
      record {
        state_hash = λ i j a p.
            ground
              (arith, view i j, k.state_hash i j a, k.state_hash (get_fork b) (get_height b) ag);
      }

  Change-IsOrdered : {fs gs : Forks} → Change e fs gs → IsOrdered fs → IsOrdered gs
  Change-IsOrdered (opened g ps cnt ts fs) o = new_fork-IsOrdered g ps cnt ts fs o
  Change-IsOrdered (added {fs} {gs} b x state at hs h) o =
      let (fk, found, above, same) = add_block_ok b x state fs gs h in
      (add_block-IsOrdered b x state fs gs fk o found (at fk found) h).0
  Change-IsOrdered (confirmed {fs} {gs} b x h) o =
      let (ag, stored, fresh, view, rest, count, ordered) = confirm_block_effect e b x fs gs o h in
      ordered
  Change-IsOrdered (posted {fs} {gs} f t p ts h) o = add_chain_block-IsOrdered f t p ts fs gs h o

  Change-IsHashed :
      {fs gs : Forks}
      → Change e fs gs
      → IsOrdered fs
      → IsHashed e.keccak256 fs
      → IsHashed e.keccak256 gs
  Change-IsHashed (opened g ps cnt ts fs) o k = new_fork-IsHashed e.keccak256 g ps cnt ts fs k
  Change-IsHashed (added {fs} {gs} b x state at hs h) o k =
      add_block-IsHashed e.keccak256 b x state fs gs k hs h
  Change-IsHashed (confirmed {fs} {gs} b x h) o k = confirm_block-IsHashed b x fs gs o k h
  Change-IsHashed (posted {fs} {gs} f t p ts h) o k = record {
    state_hash = λ i j a q.
        k.state_hash i j a (ground (arith, get_agreement-add_chain_block f t p ts fs gs i j h));
  }

  pub Changes-IsValid :
      {fs gs : Forks}
      → Changes e fs gs
      → IsOrdered fs
      → IsHashed e.keccak256 fs
      → IsOrdered gs × IsHashed e.keccak256 gs
  Changes-IsValid still o k = (o, k)
  Changes-IsValid (also c x) o k =
      let (o', k') = Changes-IsValid c o k in (Change-IsOrdered x o', Change-IsHashed x o' k')
