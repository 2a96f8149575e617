-- ===== src/Forks/Hashed.antt =====
-- Each stored block names the hash of the state that is stored with it.
use state_channels_plus.Prelude.{ℕ, ◌≡◌, some, List, ok, arith}
use state_channels_plus.Data.{Bytes, Address, Signature, Block, get_fork}
use state_channels_plus.AgreementTypes.{Agreement, Forks}
use state_channels_plus.Forks.{new_fork, get_agreement, add_block}
use state_channels_plus.Forks.Lookup.{get_agreement-add_agreement, get_agreement-new_fork}
use state_channels_plus.Forks.Ordered.{new_agreement, add_block_ok}

pub record IsHashed (hash : Bytes → Bytes) (forks : Forks) : Type 0 where
  pub state_hash :
      (i j : ℕ) (a : Agreement)
      → get_agreement forks i j ≡ some a
      → a.block.state_hash ≡ hash a.encoded_state

pub new_fork-IsHashed :
    (hash : Bytes → Bytes) (g : Bytes) (addresses : List Address) (cnt ts : ℕ) (forks : Forks)
    → IsHashed hash forks
    → IsHashed hash (new_fork g addresses cnt ts forks)
new_fork-IsHashed hash g addresses cnt ts forks h = record {
  state_hash = λ i j a p. h.state_hash i j a (rw get_agreement-new_fork at p);
}

-- If each stored agreement's block names the hash of its stored state, and so does a block with the
-- state it is added with, then the same holds of the forks after `addBlock`.
pub add_block-IsHashed :
    (hash : Bytes → Bytes) (b : Block) (s : Signature) (state : Bytes) (forks forks' : Forks)
    → IsHashed hash forks
    → b.state_hash ≡ hash state
    → add_block b s state forks ≡ ok forks'
    → IsHashed hash forks'
add_block-IsHashed hash b s state forks forks' h e added =
    let (fk, found, above, done) = add_block_ok b s state forks forks' added in
    record {
      state_hash = λ i j x p. ground (
        arith,
        get_agreement-add_agreement forks (get_fork b) (new_agreement b s state) i j fk found,
        h.state_hash i j x,
      );
    }
