-- ===== src/OnChain.antt =====
-- src/agreementManager/OnChainTracker.ts: the blocks whose calldata was posted on chain.
pub mod Laws
use state_channels_plus.Prelude.{
  ℕ, Bool, true, false, Option, none, some, List, [], ◌∷◌, ◌&&◌, ◌==◌, ltb, any, if◌then◌else◌,
  Result, ok, throw, Error,
}
use state_channels_plus.Prelude.Action.{Action, pure, reads, try_modify, ◌>>=◌, ◌>>◌}
use state_channels_plus.Data.{
  Ethers, Address, Block, SignedBlock, AgreementFlag, decode_block, get_fork, get_height,
  get_block_author,
}
use state_channels_plus.AgreementTypes.{ChainBlock, AgreementFork, Forks, AgreementState}
use state_channels_plus.Forks.{fork_at, add_chain_block}
use state_channels_plus.Queues.{queue_block}

-- The body of the loop of `latestTimestamp`: a post above the height is passed over.
abbrev pub later_of : ℕ → ℕ → ChainBlock → ℕ
later_of max_height latest cb =
    if ltb max_height cb.transaction_cnt
    then latest
    else if ltb latest cb.timestamp
    then cb.timestamp
    else latest

unfoldable pub latest_from : ℕ → ℕ → List ChainBlock → ℕ
latest_from max_height latest [] = latest
latest_from max_height latest (cb ∷ cbs) =
    latest_from max_height (later_of max_height latest cb) cbs

unfoldable pub latest_timestamp : Forks → ℕ → ℕ → Result ℕ
latest_timestamp forks fork_cnt max_height = elim (fork_at forks fork_cnt) [
  | none ↦ throw Error.fork_not_found
  | some f ↦ ok (latest_from max_height 0 f.chain_blocks)
]

abbrev pub is_post_of : ℕ → Address → ChainBlock → Bool
is_post_of height address cb = cb.transaction_cnt == height && cb.participant_adr == address

unfoldable pub has_posted : Forks → ℕ → ℕ → Address → Bool
has_posted forks fork_cnt height address = elim (fork_at forks fork_cnt) [
  | none ↦ false
  | some f ↦ any (is_post_of height address) f.chain_blocks
]

abbrev pub with_forks : AgreementState → Result Forks → Result AgreementState
with_forks s (ok forks) = ok (record s { forks = forks })
with_forks s (throw e) = throw e

module _ (e : Ethers) where
  abbrev pub queue_block_in : SignedBlock → AgreementState → Result AgreementState
  queue_block_in sb s = elim (queue_block e sb s.block_q) [
    | ok q ↦ ok (record s { block_q = q })
    | throw err ↦ throw err
  ]

  unfoldable pub record_post : SignedBlock → ℕ → Action AgreementState (Unit {0})
  record_post signed timestamp = do
    b ← reads (λ s. decode_block e signed.encoded_block)
    s ← reads ok
    if has_posted s.forks (get_fork b) (get_height b) (get_block_author b)
        then pure tt
        else try_modify (λ s'.
          with_forks s'
            (add_chain_block (get_fork b) (get_height b) (get_block_author b) timestamp s'.forks))

  unfoldable pub collect_flagged :
      AgreementFlag → SignedBlock → ℕ → Action AgreementState AgreementFlag
  unfolding record_post
  collect_flagged AgreementFlag.invalid_signature signed timestamp =
      pure AgreementFlag.invalid_signature
  collect_flagged AgreementFlag.incorrect_data signed timestamp = pure AgreementFlag.incorrect_data
  collect_flagged AgreementFlag.double_sign signed timestamp = pure AgreementFlag.double_sign
  collect_flagged AgreementFlag.duplicate signed timestamp = do
    record_post signed timestamp
    pure AgreementFlag.duplicate
  collect_flagged flag signed timestamp = do
    try_modify (queue_block_in signed)
    record_post signed timestamp
    pure flag

  -- `check` is the validator's, which `AgreementManager` sets by `setChecker`.
  unfoldable pub collect :
      (AgreementState → SignedBlock → Result AgreementFlag)
      → SignedBlock
      → ℕ
      → Action AgreementState AgreementFlag
  unfolding collect_flagged
  collect check signed timestamp = do
    flag ← reads (λ s. check s signed)
    collect_flagged flag signed timestamp
