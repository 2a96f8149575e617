-- ===== src/Queues/Laws.antt =====
-- What waits in a queue after an insertion and after a dequeue.
use state_channels_plus.Prelude.{
  ℕ, ◌≡◌, inl, inr, true, ◌&&◌, [], ◌==◌, if◌then◌else◌, ok, arith, Option-cases,
}
use state_channels_plus.Prelude.Dict.{lookup, insert, erase, values, lookup-insert, lookup-erase}
use state_channels_plus.Data.{
  Ethers, Address, Block, SignedBlock, encode_block, decode_block, get_fork, get_height,
  get_block_author,
}
use state_channels_plus.AgreementTypes.{Queue}
use state_channels_plus.Queues.{
  get_or_new, insert_nested_map_with_overwrite, waiting, try_dequeue, queue_block, is_block_queued,
}

module _ {T : Type 0} where
  -- An insertion replaces what the address has waiting there, and nothing else.
  pub waiting-insert :
      (f h : ℕ) (a : Address) (x : T) (q : Queue T) (i j : ℕ)
      → waiting i j (insert_nested_map_with_overwrite f h a x q)
        ≡ (if i == f && j == h then insert a x (waiting f h q) else waiting i j q)
  unfolding insert_nested_map_with_overwrite
  waiting-insert f h a x q i j =
      let height_map = get_or_new (lookup f q) in
      let address_map = insert a x (get_or_new (lookup h height_map)) in
      ground (
        arith,
        lookup-insert i f (insert h address_map height_map) q,
        lookup-insert j h address_map height_map,
      )

  -- A dequeue returns what waits at the fork and the height.
  pub try_dequeue-values : (f h : ℕ) (q : Queue T) → (try_dequeue f h q).0 ≡ values (waiting f h q)
  unfolding try_dequeue
  try_dequeue-values f h q = ground arith

  -- After a dequeue of a fork and a height nothing waits there, and what waits at every other fork and
  -- height is unchanged.
  pub waiting-try_dequeue :
      (f h : ℕ) (q : Queue T) (i j : ℕ)
      → waiting i j (try_dequeue f h q).1 ≡ (if i == f && j == h then [] else waiting i j q)
  unfolding try_dequeue
  waiting-try_dequeue f h q i j = elim (Option-cases (lookup f q)) [
    | inl no_fork ↦ ground arith
    | inr (heights, found) ↦ (elim (Option-cases (lookup h heights)) [
      | inl no_height ↦ ground arith
      | inr (tx, found') ↦
          ground (arith, lookup-insert i f (erase h heights) q, lookup-erase j h heights)
    ])
  ]

module _ (e : Ethers) where
  -- A block that is queued in its canonical encoding counts as queued from then on.
  pub is_block_queued-queue_block :
      (b : Block) (sb : SignedBlock) (q q' : Queue SignedBlock)
      → decode_block e sb.encoded_block ≡ ok b
      → encode_block e b ≡ sb.encoded_block
      → queue_block e sb q ≡ ok q'
      → is_block_queued e b q' ≡ true
  unfolding queue_block is_block_queued
  is_block_queued-queue_block b sb q q' hd he hq =
      let f = get_fork b in
      let h = get_height b in
      let a = get_block_author b in
      ground (arith, waiting-insert f h a sb q f h, lookup-insert a a sb (waiting f h q))
