-- ===== src/Manager/State.antt =====
-- The state of a `StateManager`, what it is given, and what it leaves behind for later.
use state_channels_plus.Prelude.{
  ℕ, ◌+◌, Bool, true, false, Option, none, some, List, [], ◌∷◌, ◌++◌, ltb, if◌then◌else◌,
}
use state_channels_plus.Prelude.Action.{Action, modify}
use state_channels_plus.Prelude.{Error}
use state_channels_plus.Data.{
  Ethers, Bytes, Address, Signature, Transaction, Block, SignedBlock, ExecutionFlag, AgreementFlag,
}
use state_channels_plus.AgreementTypes.{AgreementState}
use state_channels_plus.Proofs.{Proof, Dispute, ProofCoder}
use state_channels_plus.Disputes.{DisputeState}
use state_channels_plus.Mutex.{Mutex}

-- src/types/time.ts
pub record TimeConfig : Type 0 where
  pub p2p_time : ℕ
  pub agreement_time : ℕ
  pub chain_fallback_time : ℕ
  pub challenge_time : ℕ

-- src/AStateMachine.ts, over a state of the machine. `state_transition` says whether it succeeded, and
-- gives the state of the machine after the call in either case.
pub record Machine (M : Type 0) : Type 0 where
  pub state_transition : Transaction → M → Bool × M
  pub get_state : M → Bytes
  pub set_state : Bytes → M → M
  pub get_next_to_write : M → Address
  pub get_participants : M → List Address

-- What the manager is constructed with. The two functions of the contract are its views.
pub record Env (M : Type 0) : Type 0 where
  pub ethers : Ethers
  pub coder : ProofCoder
  pub machine : Machine M
  pub sign_message : Bytes → Signature
  pub signer_address : Address
  pub time_config : TimeConfig
  pub empty_state : Bytes
  pub get_chain_latest_block_timestamp : Bytes → ℕ → ℕ → ℕ
  pub is_block_call_data_posted : Bytes → ℕ → ℕ → Address → Bool

-- What a call schedules, broadcasts, or starts without waiting for it, in order.
pub data Effect : Type 0 where
  broadcast_confirmation : SignedBlock → Signature → Effect
  process_queues confirm_from_queue : Effect
  on_turn : Address → Effect
  check_timeout : ℕ → ℕ → ℕ → Address → Effect
  success_callback : Transaction → Effect
  finish_dispute : ℕ → Address → ℕ → List Proof → Effect
  dispute_later : ℕ → ℕ → Address → ℕ → Effect
  maybe_post_block : Block → SignedBlock → Effect
  unhandled_rejection : Error → Effect
  broadcast_block : SignedBlock → Effect
  post_calldata : SignedBlock → Effect
  challenge : Dispute → List Proof → Effect
  dispute_hook : Dispute → Effect

-- A call that waits for the mutex.
pub data Waiter : Type 0 where
  signed_block : SignedBlock → Waiter
  played : Transaction → Waiter

pub record ManagerState (M : Type 0) : Type 0 where
  pub agreements : AgreementState
  pub disputes : DisputeState
  pub machine : M
  pub channel_id : Bytes
  pub mutex : Mutex Waiter
  pub effects : List Effect

abbrev pub emit : {M : Type 0} → Effect → Action (ManagerState M) (Unit {0})
emit x = modify (λ s. record s { effects = s.effects ++ x ∷ [] })

pub record ValidationResult : Type 0 where
  pub success : Bool
  pub flag : ExecutionFlag
  pub agreement_flag : Option AgreementFlag

abbrev pub succeeded : ValidationResult
succeeded = record { success = true; flag = ExecutionFlag.success; agreement_flag = none }

abbrev pub failed : ExecutionFlag → ValidationResult
failed flag = record { success = false; flag = flag; agreement_flag = none }

abbrev pub disputed : AgreementFlag → ValidationResult
disputed af = record { success = false; flag = ExecutionFlag.dispute; agreement_flag = some af }

-- `NO_PARTICIPANT_TO_FOLD`, which is "0x00".
abbrev pub no_participant : Address
no_participant = 0

-- src/utils/timestamp.ts: `nowTs - blockTs > 5` is too old, `nowTs - blockTs < -10` too far ahead.
unfoldable pub subjective_timing_flag : ℕ → ℕ → ExecutionFlag
subjective_timing_flag block_ts now_ts =
    if ltb (block_ts + 5) now_ts
    then ExecutionFlag.not_enough_time
    else if ltb (now_ts + 10) block_ts
    then ExecutionFlag.dispute
    else ExecutionFlag.success

unfoldable pub get_timeout_wait_time_seconds : TimeConfig → ℕ
get_timeout_wait_time_seconds t = t.p2p_time + t.agreement_time + t.chain_fallback_time
