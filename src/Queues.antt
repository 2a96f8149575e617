-- ===== src/Queues.antt =====
-- src/agreementManager/QueueService.ts: the two queues of what came too early, by fork, height and
-- address.
pub mod Laws
use state_channels_plus.Prelude.{
  ℕ, Bool, true, false, Option, none, some, List, [], ◌==◌, Result, ok, throw, ◌>>=◌,
}
use state_channels_plus.Prelude.Dict.{Dict, lookup, insert, erase, values}
use state_channels_plus.Data.{
  Ethers, Address, Block, SignedBlock, encode_block, decode_block, get_coordinates,
  get_block_author, retrieve_signer_address_block,
}
use state_channels_plus.AgreementTypes.{Queue, BlockConfirmation}

-- `map.get(k)`, where the code has put an empty map if there was none.
abbrev pub get_or_new : {V : Type 0} → Option (Dict V) → Dict V
get_or_new none = []
get_or_new (some d) = d

module _ {T : Type 0} where
  unfoldable pub insert_nested_map_with_overwrite : ℕ → ℕ → Address → T → Queue T → Queue T
  insert_nested_map_with_overwrite fork_cnt height address element fork_map =
      let height_map = get_or_new (lookup fork_cnt fork_map) in
      let address_map = get_or_new (lookup height height_map) in
      insert fork_cnt (insert height (insert address element address_map) height_map) fork_map

  -- What waits at a fork and a height.
  abbrev pub waiting : ℕ → ℕ → Queue T → Dict T
  waiting fork_cnt height q = get_or_new (lookup height (get_or_new (lookup fork_cnt q)))

  -- `tryDequeueBlocks` and `tryDequeueConfirmations`, which have the same text.
  unfoldable pub try_dequeue : ℕ → ℕ → Queue T → List T × Queue T
  try_dequeue fork_cnt height q = elim (lookup fork_cnt q) [
    | none ↦ ([], q)
    | some height_map ↦ elim (lookup height height_map) [
      | none ↦ ([], q)
      | some tx_map ↦ (values tx_map, insert fork_cnt (erase height height_map) q)
    ]
  ]

module _ (e : Ethers) where
  unfoldable pub queue_block : SignedBlock → Queue SignedBlock → Result (Queue SignedBlock)
  queue_block sb q = do
    b ← decode_block e sb.encoded_block
    let (fork_cnt, height) = get_coordinates b
    ok (insert_nested_map_with_overwrite fork_cnt height (get_block_author b) sb q)

  unfoldable pub queue_confirmation :
      BlockConfirmation → Queue BlockConfirmation → Result (Queue BlockConfirmation)
  queue_confirmation c q = do
    b ← decode_block e c.original_signed_block.encoded_block
    let (fork_cnt, height) = get_coordinates b
    signer ← retrieve_signer_address_block e b c.confirmation_signature
    ok (insert_nested_map_with_overwrite fork_cnt height signer c q)

  unfoldable pub is_block_queued : Block → Queue SignedBlock → Bool
  is_block_queued b q =
      let (fork_cnt, height) = get_coordinates b in
      elim (lookup (get_block_author b) (waiting fork_cnt height q)) [
        | none ↦ false
        | some stored ↦ stored.encoded_block == encode_block e b
      ]
