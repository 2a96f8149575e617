-- ===== src/Agreement/Settled.antt =====
-- When everybody has signed the latest block, `getFinalizedAndLatestWithVotes` finalizes its state.
use state_channels_plus.Prelude.{ℕ, ◌≡◌, refl, true, false, some, List, [], ◌∷◌, reverse, ok, arith}
use state_channels_plus.Data.{Ethers, Address}
use state_channels_plus.Data.Blocks.{get_signer_addresses}
use state_channels_plus.SetUtils.{has, from_array, is_empty, difference}
use state_channels_plus.SetUtils.Laws.{has-from_array, has-difference}
use state_channels_plus.AgreementTypes.{Agreement, AgreementFork, Forks}
use state_channels_plus.Forks.{fork_at, agreements_backward}
use state_channels_plus.Agreement.{confirmed, tally_votes, get_finalized_and_latest_with_votes}

is_empty_of_no_elements : (s : List ℕ) → ((x : ℕ) → has s x ≡ false) → is_empty s ≡ true
is_empty_of_no_elements [] h = refl
is_empty_of_no_elements (x ∷ s) h = absurd (ground (arith, h x))

nothing_left :
    (threshold signers : List Address)
    → ((a : Address) → has threshold a ≡ true → has signers a ≡ true)
    → is_empty (difference (from_array threshold) signers) ≡ true
nothing_left threshold signers h =
    is_empty_of_no_elements (difference (from_array threshold) signers) (λ x.
      ground
        (arith, has-difference (from_array threshold) signers x, has-from_array threshold x, h x))

module _ (e : Ethers) where
  -- If the signatures of the latest agreement of a fork can all be read, and each address of the fork's
  -- threshold, the asking peer among them, is one of their signers, then the state of that agreement is
  -- reported as the finalized and as the latest correct state, with that block as the only vote.
  pub get_finalized_and_latest_with_votes-settled :
      (forks : Forks) (fork_cnt : ℕ) (signer : Address) (f : AgreementFork) (ag : Agreement)
      (older : List Agreement) (signers : List Address)
      → fork_at forks fork_cnt ≡ some f
      → reverse f.agreements ≡ ag ∷ older
      → get_signer_addresses e ag.block ag.block_signatures ≡ ok signers
      → ((a : Address) → has f.addresses_in_threshold a ≡ true → has signers a ≡ true)
      → has f.addresses_in_threshold signer ≡ true
      → get_finalized_and_latest_with_votes e fork_cnt signer forks
        ≡ ok (record {
          encoded_latest_finalized_state = ag.encoded_state;
          encoded_latest_correct_state = ag.encoded_state;
          virtual_voting_blocks = confirmed e ag ∷ [];
        })
  unfolding get_finalized_and_latest_with_votes agreements_backward tally_votes
  get_finalized_and_latest_with_votes-settled forks fork_cnt signer f ag older signers found last hs
        all own =
      ground (arith, nothing_left f.addresses_in_threshold signers all, all signer own)
