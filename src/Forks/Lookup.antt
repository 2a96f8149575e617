-- ===== src/Forks/Lookup.antt =====
-- What a lookup finds after each mutator of the array of forks.
use state_channels_plus.Prelude.{
  ℕ, ◌≡◌, true, ◌&&◌, none, some, List, [], length, ◌==◌, if◌then◌else◌, ok, arith, ◌≤◌,
  get_elem?-modify_at, get_elem?-push, get_elem?_beyond, get_elem?_within, lt_of_get_elem?,
}
use state_channels_plus.Data.{Bytes, Address}
use state_channels_plus.AgreementTypes.{Agreement, AgreementFork, ChainBlock, Forks}
use state_channels_plus.Forks.{
  new_fork, push_agreement, add_agreement, is_valid_fork_cnt, fork_at, get_agreement,
  push_chain_block, add_chain_block,
}

pub fork_at-add_agreement :
    (forks : Forks) (f : ℕ) (a : Agreement) (i : ℕ) (fk : AgreementFork)
    → fork_at forks f ≡ some fk
    → fork_at (add_agreement f a forks) i
      ≡ (if i == f then some (push_agreement a fk) else fork_at forks i)
unfolding add_agreement
fork_at-add_agreement forks f a i fk h =
    ground (arith, get_elem?-modify_at (push_agreement a) f i forks)

pub get_agreement-add_agreement :
    (forks : Forks) (f : ℕ) (a : Agreement) (i j : ℕ) (fk : AgreementFork)
    → fork_at forks f ≡ some fk
    → get_agreement (add_agreement f a forks) i j
      ≡ (if i == f && j == length fk.agreements then some a else get_agreement forks i j)
unfolding get_agreement
get_agreement-add_agreement forks f a i j fk h =
    ground (arith, fork_at-add_agreement forks f a i fk h, get_elem?-push fk.agreements a j)

pub get_agreement-new_fork :
    (g : Bytes) (addresses : List Address) (cnt ts : ℕ) (forks : Forks) (i j : ℕ)
    → get_agreement (new_fork g addresses cnt ts forks) i j ≡ get_agreement forks i j
unfolding get_agreement new_fork
get_agreement-new_fork g addresses cnt ts forks i j =
    let fresh : AgreementFork = record {
      fork_genesis_state_encoded = g;
      addresses_in_threshold = addresses;
      genesis_timestamp = ts;
      chain_blocks = [];
      agreements = [];
    } in
    ground (arith, get_elem?-push forks fresh i, get_elem?_beyond forks i)

-- `addChainBlock` adds its record to one fork, and no lookup of an agreement sees it.
pub get_agreement-add_chain_block :
    (f t : ℕ) (p : Address) (ts : ℕ) (forks forks' : Forks) (i j : ℕ)
    → add_chain_block f t p ts forks ≡ ok forks'
    → get_agreement forks' i j ≡ get_agreement forks i j
unfolding get_agreement add_chain_block
get_agreement-add_chain_block f t p ts forks forks' i j h =
    let c : ChainBlock = record { transaction_cnt = t; participant_adr = p; timestamp = ts } in
    ground (arith, get_elem?-modify_at (push_chain_block c) f i forks)

pub fork_at_of_valid :
    (forks : Forks) (f : ℕ)
    → is_valid_fork_cnt forks f ≡ true
    → (fk : AgreementFork) × (fork_at forks f ≡ some fk)
unfolding is_valid_fork_cnt
fork_at_of_valid forks f h = get_elem?_within forks f (ground arith)

pub valid_of_fork_at :
    (forks : Forks) (f : ℕ) (fk : AgreementFork)
    → fork_at forks f ≡ some fk
    → is_valid_fork_cnt forks f ≡ true
unfolding is_valid_fork_cnt
valid_of_fork_at forks f fk h = ground (arith, lt_of_get_elem? forks f fk h)

-- Beyond the agreements of a fork nothing is found, and below its length something is.
pub get_agreement-none_iff :
    (forks : Forks) (i j : ℕ) (fk : AgreementFork)
    → fork_at forks i ≡ some fk
    → get_agreement forks i j ≡ none
    → length fk.agreements ≤ j
unfolding get_agreement
get_agreement-none_iff forks i j fk h n = grind (arith, get_elem?_within fk.agreements j)
