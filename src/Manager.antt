-- ===== src/Manager.antt =====
-- src/stateManager: the verification pipeline of incoming blocks and confirmations, the authoring of
-- blocks, and the decisions that follow (StateManager.ts, ValidationService.ts, and the two tables of
-- decision handlers).
mod State
mod Validation
mod Decisions
mod Calls
mod Author
pub mod Tasks
pub mod Accept
pub mod Locking
pub mod Kept
pub mod Authored
pub mod Invariant
pub mod Success
pub mod Entries
pub mod Authoring
pub mod Changes
pub mod Disputed
pub mod Reach
pub mod Sending
pub mod Once
pub mod Frozen
pub use State.*
pub use Decisions.{own_signature}
unfoldable pub use Validation.{
  is_signed_block_authentic, is_good_timestamp, is_enough_time_subjective, process_state_transition,
  validate_producer, validate_next, validate_past, validate_place, validate_signed_block,
}
unfoldable pub use Decisions.{
  on_success_common, confirm_own, dispute_double_sign, dispute_incorrect_data,
  process_execution_decision, process_confirmation_decision,
}
unfoldable pub use Calls.{
  release, run_signed_block, on_signed_block, confirmation_tail, validate_confirmation,
  finish_confirmation, on_block_confirmation,
}
unfoldable pub use Author.{
  collect_on_chain_block, set_state, adjust_timestamp, author_block, play_body, play_transaction,
  try_timeout_participant,
}
unfoldable pub use Tasks.{
  on_encoded_block, on_encoded_confirmation, execute_all, confirm_all, try_execute_from_queue,
  try_confirm_from_queue, maybe_post_block_on_chain, begin_answer, on_dispute_update,
  set_channel_id, new_transaction, send_transaction, receive_signed_block,
  receive_block_confirmation,
}
