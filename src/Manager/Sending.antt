-- ===== src/Manager/Sending.antt =====
-- A transaction of the application: what a success of `P2pSigner.sendTransaction` stands for, and what
-- becomes of a transaction that has waited for the mutex until its place was taken.
use state_channels_plus.Prelude.{
  ℕ, ◌≡◌, ◌≤◌, ◌⊎◌, inl, inr, true, false, some, List, [], ◌∷◌, ◌++◌, lt_of_get_elem?, ok, throw,
  Error, arith, Bool-cases, Option-cases, Result-cases,
}
use state_channels_plus.Data.{
  Bytes, Signature, Transaction, Block, SignedBlock, get_fork, get_height, get_timestamp,
  get_block_author, get_channel_id, encode_block,
}
use state_channels_plus.AgreementTypes.{Agreement, Forks}
use state_channels_plus.Forks.{
  fork_at, is_valid_fork_cnt, get_agreement, get_agreement_by_block, add_block, get_latest_fork_cnt,
  get_next_block_height,
}
use state_channels_plus.Forks.Ordered.{new_agreement, add_block_ok, add_block-IsOrdered}
use state_channels_plus.Ledger.Valid.{next_height-length}
use state_channels_plus.Validator.{latest_block_timestamp}
use state_channels_plus.Mutex.{lock, unlock}
use state_channels_plus.Manager.State.{Env, Effect, Waiter, ManagerState}
use state_channels_plus.Manager.Validation.{is_my_turn}
use state_channels_plus.Manager.Decisions.{on_success_common, own_signature}
use state_channels_plus.Manager.Author.{adjust_timestamp, author_block, play_body, play_transaction}
use state_channels_plus.Manager.Tasks.{new_transaction, send_transaction}
use state_channels_plus.Manager.Invariant.{IsValid}

-- A place that is taken takes no other block.
add_block_taken :
    (b : Block) (x : Signature) (state : Bytes) (forks : Forks) (a : Agreement)
    → get_agreement forks (get_fork b) (get_height b) ≡ some a
    → add_block b x state forks ≡ throw Error.double_sign_or_incorrect_data
unfolding add_block get_agreement_by_block is_valid_fork_cnt get_agreement
add_block_taken b x state forks a taken = elim (Option-cases (fork_at forks (get_fork b))) [
  | inl missing ↦ absurd (ground arith)
  | inr (fk, found) ↦ ground (arith, lt_of_get_elem? forks (get_fork b) fk found)
]

module _ {M : Type 0} (env : Env M) (now : ℕ) where
  abbrev pub signed_by_self : Block → SignedBlock
  signed_by_self b = record {
    encoded_block = encode_block env.ethers b;
    signature = own_signature env b;
  }

  -- The block of a transaction has been made, stored and returned.
  record Authors (tx : Transaction) (signed : SignedBlock) (s s' : ManagerState M) : Type 0 where
    block : Block
    its_transaction : block.transaction ≡ tx
    returned : signed ≡ signed_by_self block
    transition : env.machine.state_transition tx s.machine ≡ (true, s'.machine)
    previous : block.previous_state_hash ≡ env.ethers.keccak256 (env.machine.get_state s.machine)
    hashed : block.state_hash ≡ env.ethers.keccak256 (env.machine.get_state s'.machine)
    added :
        add_block block
          (own_signature env block)
          (env.machine.get_state s'.machine)
          s.agreements.forks
        ≡ ok s'.agreements.forks

  author_block-Authors :
      (tx : Transaction) (signed : SignedBlock) (s s' : ManagerState M)
      → author_block env now tx s ≡ (ok signed, s')
      → Authors tx signed s s'
  unfolding author_block on_success_common
  author_block-Authors tx signed s s' h =
      let after = env.machine.state_transition tx s.machine in
      let state = env.machine.get_state after.1 in
      let b : Block = record {
        transaction = tx;
        state_hash = env.ethers.keccak256 state;
        previous_state_hash = env.ethers.keccak256 (env.machine.get_state s.machine);
      } in
      elim (Bool-cases after.0) [
        | inr failed ↦ absurd (ground arith)
        | inl done ↦
            elim (Result-cases (add_block b (own_signature env b) state s.agreements.forks)) [
              | inr (err, thrown) ↦ absurd (ground arith)
              | inl (forks, made) ↦ record {
                block = b;
                its_transaction = ground arith;
                returned = ground arith;
                transition = ground arith;
                previous = ground arith;
                hashed = ground arith;
                added = ground arith;
              }
            ]
      ]

  -- A transaction of the application has become a block of the chain.
  pub record Sent (payload : Bytes) (s s' : ManagerState M) : Type 0 where
    pub block : Block
    pub carries : block.transaction.body.payload ≡ payload
    pub own_channel : get_channel_id block ≡ s.channel_id
    pub own_block : get_block_author block ≡ env.signer_address
    pub own_turn : env.machine.get_next_to_write s.machine ≡ env.signer_address
    pub latest_fork : get_fork block ≡ get_latest_fork_cnt s.agreements.forks
    pub next_height : get_height block ≡ get_next_block_height s.agreements.forks
    pub in_order :
        (latest : ℕ) × (latest_block_timestamp s.agreements.forks
            (get_latest_fork_cnt s.agreements.forks)
          ≡ ok latest)
        × (latest ≤ get_timestamp block)
    pub transition : env.machine.state_transition block.transaction s.machine ≡ (true, s'.machine)
    pub previous :
        block.previous_state_hash ≡ env.ethers.keccak256 (env.machine.get_state s.machine)
    pub hashed : block.state_hash ≡ env.ethers.keccak256 (env.machine.get_state s'.machine)
    pub stored :
        get_agreement_by_block s'.agreements.forks block
        ≡ some (new_agreement block (own_signature env block) (env.machine.get_state s'.machine))
    pub announced :
        (before : List Effect) × (s'.effects
          ≡ before ++ Effect.broadcast_block (signed_by_self block) ∷ [])

  played_ok :
      (tx : Transaction) (signed : SignedBlock) (s s' : ManagerState M)
      → play_body env now tx s ≡ (ok signed, s')
      → (is_my_turn env now s ≡ true)
        × (tx' : Transaction) × (adjust_timestamp env now tx s ≡ ok tx')
        × (author_block env now tx' s ≡ (ok signed, s'))
  unfolding play_body
  played_ok tx signed s s' h = elim (Result-cases (adjust_timestamp env now tx s)) [
    | inr (err, thrown) ↦ absurd (ground arith)
    | inl (tx', adjusted) ↦ (ground arith, tx', ground arith, ground arith)
  ]

  -- The adjusted transaction differs in its timestamp alone, which is not below the latest block's.
  adjusted_lem :
      (tx tx' : Transaction) (s : ManagerState M)
      → adjust_timestamp env now tx s ≡ ok tx'
      → (tx' ≡ record tx { header = record (tx.header) { timestamp = tx'.header.timestamp } })
        × (latest : ℕ) × (latest_block_timestamp s.agreements.forks
              (get_latest_fork_cnt s.agreements.forks)
            ≡ ok latest)
        × (latest ≤ tx'.header.timestamp)
  unfolding adjust_timestamp
  adjusted_lem tx tx' s h =
      elim (Result-cases
        (latest_block_timestamp s.agreements.forks (get_latest_fork_cnt s.agreements.forks))) [
          | inr (err, thrown) ↦ absurd (ground arith)
          | inl (latest, found) ↦ (ground arith, latest, found, ground arith)
        ]

  sent_ok :
      (payload : Bytes) (s s' : ManagerState M)
      → send_transaction env now payload s ≡ (some (ok tt), s')
      → (signed : SignedBlock) × (t : ManagerState M) × (play_transaction env now
            (new_transaction env now payload s)
            s
          ≡ (some (ok signed), t))
        × (s' ≡ record t { effects = t.effects ++ Effect.broadcast_block signed ∷ [] })
  unfolding send_transaction
  sent_ok payload s s' h =
      let p = play_transaction env now (new_transaction env now payload s) s in
      elim (Option-cases p.0) [
        | inl waits ↦ absurd (ground arith)
        | inr (throw err, e) ↦ absurd (ground arith)
        | inr (ok signed, e) ↦ (signed, p.1, ground arith, ground arith)
      ]

  play_ok :
      (tx : Transaction) (signed : SignedBlock) (s t : ManagerState M)
      → play_transaction env now tx s ≡ (some (ok signed), t)
      → let s1 : ManagerState M = record s { mutex = (lock (Waiter.played tx) s.mutex).1 } in
        (u : ManagerState M) × (play_body env now tx s1 ≡ (ok signed, u))
        × (t ≡ record u { mutex = (unlock u.mutex).1 })
  unfolding play_transaction
  play_ok tx signed s t h =
      let s1 : ManagerState M = record s { mutex = (lock (Waiter.played tx) s.mutex).1 } in
      let p = play_body env now tx s1 in (p.1, ground arith, ground arith)

  -- If `sendTransaction` ends without a throw, with the agreements valid before, then it was this peer's turn,
  -- and the payload has become a block of this peer at the next height of the latest fork of its channel: the
  -- machine has made the block's transition between the states that the block names, the block is stored
  -- with its signature, its timestamp is not below that of the latest block, and it is broadcast last.
  pub send_transaction-Sent :
      (payload : Bytes) (s s' : ManagerState M)
      → IsValid env s
      → send_transaction env now payload s ≡ (some (ok tt), s')
      → Sent payload s s'
  unfolding new_transaction
  send_transaction-Sent payload s s' k h =
      let tx = new_transaction env now payload s in
      let s1 : ManagerState M = record s { mutex = (lock (Waiter.played tx) s.mutex).1 } in
      let (signed, t, played, final) = sent_ok payload s s' h in
      let (u, body, released) = play_ok tx signed s t played in
      let (turn, tx', adjusted, made) = played_ok tx signed s1 u body in
      let (shape, latest, at, below) = adjusted_lem tx tx' s1 adjusted in
      let a = author_block-Authors tx' signed s1 u made in
      let forks = s.agreements.forks in
      let (fk, found, above, e) =
        add_block_ok a.block (own_signature env a.block) (env.machine.get_state u.machine) forks
          u.agreements.forks a.added in
      let fork_same : get_fork a.block ≡ get_latest_fork_cnt forks =
        ground (arith, a.its_transaction) in
      let height_same : get_height a.block ≡ get_next_block_height forks =
        ground (arith, a.its_transaction) in
      let (ordered, stored, older) =
        add_block-IsOrdered a.block (own_signature env a.block) (env.machine.get_state u.machine)
          forks u.agreements.forks fk k.ordered found
          (next_height-length forks (get_fork a.block) (get_height a.block) fk fork_same height_same
            found)
          a.added in
      record {
        block = a.block;
        carries = ground (arith, a.its_transaction);
        own_channel = ground (arith, a.its_transaction);
        own_block = ground (arith, a.its_transaction);
        own_turn = ground arith;
        latest_fork = fork_same;
        next_height = height_same;
        in_order = (latest, at, ground (arith, a.its_transaction));
        transition = ground (arith, a.its_transaction, a.transition);
        previous = a.previous;
        hashed = ground (arith, a.hashed);
        stored = ground (arith, stored);
        announced = (t.effects, ground (arith, a.returned));
      }

  author_block_taken :
      (tx : Transaction) (a : Agreement) (s : ManagerState M)
      → get_agreement s.agreements.forks tx.header.fork_cnt tx.header.transaction_cnt ≡ some a
      → (err : Error) × (author_block env now tx s
          ≡ (throw err, record s { machine = (env.machine.state_transition tx s.machine).1 }))
  unfolding author_block
  author_block_taken tx a s taken =
      let after = env.machine.state_transition tx s.machine in
      let state = env.machine.get_state after.1 in
      let b : Block = record {
        transaction = tx;
        state_hash = env.ethers.keccak256 state;
        previous_state_hash = env.ethers.keccak256 (env.machine.get_state s.machine);
      } in
      elim (Bool-cases after.0) [
        | inr failed ↦ (Error.not_successful, ground arith)
        | inl done ↦ (
          Error.double_sign_or_incorrect_data,
          ground (arith, add_block_taken b (own_signature env b) state s.agreements.forks a taken),
        )
      ]

  -- Where `playTransaction` leaves the state when it throws: as it was, if it is not this peer's turn or the latest
  -- timestamp cannot be read, and else with the machine after the transition and all else as it was.
  abbrev pub LeavesBehind : Transaction → ManagerState M → ManagerState M → Type 0
  LeavesBehind tx s s' =
      (is_my_turn env now s ≡ false) × (s' ≡ s)
      ⊎ ((err : Error) × (adjust_timestamp env now tx s ≡ throw err) × (s' ≡ s))
      ⊎ (tx' : Transaction) × (is_my_turn env now s ≡ true)
        × (adjust_timestamp env now tx s ≡ ok tx')
        × (s' ≡ record s { machine = (env.machine.state_transition tx' s.machine).1 })

  -- A transaction whose place is taken when it gets the mutex never becomes a block: `playTransaction` throws, with the
  -- agreements as they were. The machine is as it was if it is not this peer's turn, or if the latest timestamp cannot be
  -- read; else it has been through the transition all the same.
  pub play_body_overtaken :
      (tx : Transaction) (a : Agreement) (s : ManagerState M)
      → get_agreement s.agreements.forks tx.header.fork_cnt tx.header.transaction_cnt ≡ some a
      → let (r, s') = play_body env now tx s in
        (err : Error) × (r ≡ throw err) × (s'.agreements ≡ s.agreements) × LeavesBehind tx s s'
  unfolding play_body
  play_body_overtaken tx a s taken = elim (Bool-cases (is_my_turn env now s)) [
    | inr other ↦ (Error.not_player_turn, ground arith, ground arith, inl (other, ground arith))
    | inl turn ↦ elim (Result-cases (adjust_timestamp env now tx s)) [
      | inr (err, thrown) ↦ (err, ground arith, ground arith, inr (inl (err, thrown, ground arith)))
      | inl (tx', adjusted) ↦
          let (shape, latest, at, below) = adjusted_lem tx tx' s adjusted in
          let (err, made) = author_block_taken tx' a s (ground arith) in
          let result : play_body env now tx s
              ≡ (throw err, record s { machine = (env.machine.state_transition tx' s.machine).1 }) =
            ground arith in
          (err, ground arith, ground arith, inr (inr (tx', turn, adjusted, ground arith)))
    ]
  ]
