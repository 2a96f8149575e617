-- ===== src/Forks/Ordered.antt =====
-- The total order of a fork: an agreement stands at the height that its block names.
use state_channels_plus.Prelude.{
  ℕ, ◌≡◌, none, some, List, [], ◌∷◌, length, ok, arith, ◌≤◌, get_elem?_beyond,
}
use state_channels_plus.Data.{Bytes, Address, Signature, Block, get_fork, get_height}
use state_channels_plus.AgreementTypes.{Agreement, AgreementFork, Forks}
use state_channels_plus.Forks.{
  new_fork, add_agreement, fork_at, get_agreement, get_agreement_by_block, add_block,
  add_chain_block,
}
use state_channels_plus.Forks.Lookup.{
  get_agreement-add_agreement, get_agreement-new_fork, get_agreement-add_chain_block,
  fork_at_of_valid, get_agreement-none_iff,
}

pub record IsOrdered (forks : Forks) : Type 0 where
  pub coordinates :
      (i j : ℕ) (a : Agreement)
      → get_agreement forks i j ≡ some a
      → (get_fork a.block ≡ i) × (get_height a.block ≡ j)

pub empty-IsOrdered : IsOrdered []
unfolding get_agreement
empty-IsOrdered = record { coordinates = λ i j a h. ground arith }

pub new_fork-IsOrdered :
    (g : Bytes) (addresses : List Address) (cnt ts : ℕ) (forks : Forks)
    → IsOrdered forks
    → IsOrdered (new_fork g addresses cnt ts forks)
new_fork-IsOrdered g addresses cnt ts forks h = record {
  coordinates = λ i j a p. h.coordinates i j a (rw get_agreement-new_fork at p);
}

pub add_chain_block-IsOrdered :
    (f t : ℕ) (p : Address) (ts : ℕ) (forks forks' : Forks)
    → add_chain_block f t p ts forks ≡ ok forks'
    → IsOrdered forks
    → IsOrdered forks'
add_chain_block-IsOrdered f t p ts forks forks' e h = record {
  coordinates = λ i j a q.
      h.coordinates i j a
        (ground (arith, get_agreement-add_chain_block f t p ts forks forks' i j e));
}

abbrev pub new_agreement : Block → Signature → Bytes → Agreement
new_agreement b s state = record { block = b; block_signatures = s ∷ []; encoded_state = state }

get_agreement_beyond :
    (forks : Forks) (i j : ℕ) (fk : AgreementFork)
    → fork_at forks i ≡ some fk
    → length fk.agreements ≤ j
    → get_agreement forks i j ≡ none
unfolding get_agreement
get_agreement_beyond forks i j fk h n = ground (arith, get_elem?_beyond fk.agreements j)

-- What a call of `addBlock` that does not throw has seen and done.
pub add_block_ok :
    (b : Block) (s : Signature) (state : Bytes) (forks forks' : Forks)
    → add_block b s state forks ≡ ok forks'
    → (fk : AgreementFork) × (fork_at forks (get_fork b) ≡ some fk)
      × (length fk.agreements ≤ get_height b)
      × (forks' ≡ add_agreement (get_fork b) (new_agreement b s state) forks)
unfolding add_block get_agreement_by_block
add_block_ok b s state forks forks' h =
    let (fk, found) = fork_at_of_valid forks (get_fork b) (ground arith) in
    (
      fk,
      found,
      get_agreement-none_iff forks (get_fork b) (get_height b) fk found (ground arith),
      ground arith,
    )

-- If every agreement stands at the fork and height that its block names, and `addBlock` accepts a block
-- whose height is the length of its fork, then the same holds afterwards, the block is found at its
-- coordinates with the signature and the state that came with it, and every agreement stored before
-- is still there.
pub add_block-IsOrdered :
    (b : Block) (s : Signature) (state : Bytes) (forks forks' : Forks) (fk : AgreementFork)
    → IsOrdered forks
    → fork_at forks (get_fork b) ≡ some fk
    → get_height b ≡ length fk.agreements
    → add_block b s state forks ≡ ok forks'
    → IsOrdered forks'
      × (get_agreement_by_block forks' b ≡ some (new_agreement b s state))
      × ((i j : ℕ) (a : Agreement)
          → get_agreement forks i j ≡ some a
          → get_agreement forks' i j ≡ some a)
unfolding get_agreement_by_block
add_block-IsOrdered b s state forks forks' fk o found next h =
    let (fk', found', above, e) = add_block_ok b s state forks forks' h in
    let a = new_agreement b s state in
    (
      record {
        coordinates = λ i j x p. ground (
          arith,
          get_agreement-add_agreement forks (get_fork b) a i j fk found,
          o.coordinates i j x,
        );
      },
      ground (
        arith,
        get_agreement-add_agreement forks (get_fork b) a (get_fork b) (get_height b) fk found,
      ),
      λ i j x p. ground (
        arith,
        get_agreement-add_agreement forks (get_fork b) a i j fk found,
        get_agreement_beyond forks i j fk,
      ),
    )
