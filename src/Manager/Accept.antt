-- ===== src/Manager/Accept.antt =====
-- What a validation that ends in SUCCESS has checked and stored.
use state_channels_plus.Prelude.{
  ℕ, ◌≡◌, ◌≢◌, inl, inr, true, false, ltb, ok, arith, Bool-cases, Result-cases,
}
use state_channels_plus.Data.{
  Block, SignedBlock, ExecutionFlag, get_fork, get_height, get_block_author, get_channel_id,
  signed_by,
}
use state_channels_plus.Forks.{get_latest_fork_cnt, get_next_block_height, add_block}
use state_channels_plus.Validator.{is_block_duplicate}
use state_channels_plus.Agreement.{is_participant_in_latest_fork}
use state_channels_plus.Disputes.{is_fork_disputed}
use state_channels_plus.Manager.State.{Env, ManagerState, ValidationResult, subjective_timing_flag}
use state_channels_plus.Manager.Validation.{
  is_signed_block_authentic, is_good_timestamp, is_enough_time_subjective, process_state_transition,
  validate_producer, validate_next, validate_past, validate_place, validate_signed_block,
}

module _ {M : Type 0} (env : Env M) (now : ℕ) where
  -- The transition of the machine reproduces the hashes of the block, and the block is appended with
  -- its signature and the state that the machine has reached.
  pub record Executed (signed : SignedBlock) (b : Block) (s s' : ManagerState M) : Type 0 where
    pub transition : env.machine.state_transition b.transaction s.machine ≡ (true, s'.machine)
    pub previous_hash :
        env.ethers.keccak256 (env.machine.get_state s.machine) ≡ b.previous_state_hash
    pub state_hash : env.ethers.keccak256 (env.machine.get_state s'.machine) ≡ b.state_hash
    pub appended :
        add_block b signed.signature (env.machine.get_state s'.machine) s.agreements.forks
        ≡ ok s'.agreements.forks
    pub same_mutex : s'.mutex ≡ s.mutex

  process_state_transition-Executed :
      (b : Block) (signed : SignedBlock) (s s' : ManagerState M) (v : ValidationResult)
      → process_state_transition env now b signed s ≡ (ok v, s')
      → v.flag ≡ ExecutionFlag.success
      → Executed signed b s s'
  unfolding process_state_transition
  process_state_transition-Executed b signed s s' v h f =
      let after = env.machine.state_transition b.transaction s.machine in
      elim (Result-cases
        (add_block b signed.signature (env.machine.get_state after.1) s.agreements.forks)) [
          | inr (err, thrown) ↦ absurd (ground arith)
          | inl (forks, added) ↦ record {
            transition = ground arith;
            previous_hash = ground arith;
            state_hash = ground arith;
            appended = ground arith;
            same_mutex = ground arith;
          }
        ]

  time-unchanged :
      (signed : SignedBlock) (b : Block) (s s' : ManagerState M)
      → is_enough_time_subjective env now signed b s ≡ (ok ExecutionFlag.success, s')
      → s' ≡ s
  unfolding is_enough_time_subjective subjective_timing_flag
  time-unchanged signed b s s' h = ground arith

  -- A block that `validateSignedBlock` accepts.
  pub record Accepted (signed : SignedBlock) (b : Block) (s s' : ManagerState M) : Type 0 where
    pub own_channel : get_channel_id b ≡ s.channel_id
    pub authentic :
        signed_by env.ethers signed.encoded_block signed.signature ≡ ok (get_block_author b)
    pub current_fork : get_fork b ≡ get_latest_fork_cnt s.agreements.forks
    pub undisputed : is_fork_disputed (get_fork b) s.disputes ≡ false
    pub new_block : is_block_duplicate env.ethers s.agreements b ≡ false
    pub next_height : get_height b ≡ get_next_block_height s.agreements.forks
    pub participant : is_participant_in_latest_fork s.agreements.forks (get_block_author b) ≡ true
    pub in_time : is_good_timestamp env now b s.channel_id s.agreements.forks ≡ ok true
    pub its_turn : get_block_author b ≡ env.machine.get_next_to_write s.machine
    pub executed : Executed signed b s s'

  record InTurn (signed : SignedBlock) (b : Block) (s s' : ManagerState M) : Type 0 where
    in_time : is_good_timestamp env now b s.channel_id s.agreements.forks ≡ ok true
    its_turn : get_block_author b ≡ env.machine.get_next_to_write s.machine
    executed : Executed signed b s s'

  validate_next-InTurn :
      (b : Block) (signed : SignedBlock) (s s' : ManagerState M) (v : ValidationResult)
      → validate_next env now b signed s ≡ (ok v, s')
      → v.flag ≡ ExecutionFlag.success
      → InTurn signed b s s'
  unfolding validate_next validate_producer
  validate_next-InTurn b signed s s' v h f =
      let t = is_enough_time_subjective env now signed b s in
      elim (Result-cases (is_good_timestamp env now b s.channel_id s.agreements.forks)) [
        | inr (err, thrown) ↦ absurd (ground arith)
        | inl (false, far) ↦ absurd (ground arith)
        | inl (true, good) ↦ elim (Result-cases t.0) [
          | inr (err, thrown) ↦ absurd (ground arith)
          | inl (ExecutionFlag.success, timely) ↦
              let same : t.1 ≡ s = time-unchanged signed b s t.1 (ground arith) in
              record {
                in_time = good;
                its_turn = ground arith;
                executed = process_state_transition-Executed b signed s s' v (ground arith) f;
              }
          | inl (late, e) ↦ absurd (ground arith)
        ]
      ]

  validate_past-fails :
      (signed : SignedBlock) (s s' : ManagerState M) (v : ValidationResult)
      → validate_past env now signed s ≡ (ok v, s')
      → v.flag ≢ ExecutionFlag.success
  unfolding validate_past
  validate_past-fails signed s s' v h f = ground arith

  -- If `validateSignedBlock` returns SUCCESS, the block names the channel and is signed by its author, is
  -- of the latest fork, which is not disputed, stands at the next height, is no duplicate, is by a
  -- participant whose turn it is, passes the timestamp test, and has been executed and stored.
  pub validate_signed_block-Accepted :
      (signed : SignedBlock) (b : Block) (s s' : ManagerState M) (v : ValidationResult)
      → validate_signed_block env now signed b s ≡ (ok v, s')
      → v.flag ≡ ExecutionFlag.success
      → Accepted signed b s s'
  unfolding validate_signed_block validate_place is_signed_block_authentic
  validate_signed_block-Accepted signed b s s' v h f =
      elim (Result-cases (signed_by env.ethers signed.encoded_block signed.signature)) [
        | inr (err, thrown) ↦ absurd (ground arith)
        | inl (signer, recovered) ↦
            elim (Bool-cases (ltb (get_height b) (get_next_block_height s.agreements.forks))) [
              | inl past ↦ absurd (ground (arith, validate_past-fails signed s s' v))
              | inr here ↦
                  let t = validate_next-InTurn b signed s s' v (ground arith) f in
                  record {
                    own_channel = ground arith;
                    authentic = ground arith;
                    current_fork = ground arith;
                    undisputed = ground arith;
                    new_block = ground arith;
                    next_height = ground arith;
                    participant = ground arith;
                    in_time = t.in_time;
                    its_turn = t.its_turn;
                    executed = t.executed;
                  }
            ]
      ]
