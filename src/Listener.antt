-- ===== src/Listener.antt =====
-- The events of the contract, as they reach a peer: the handlers that `setChannelId` of src/StateChannelEventListener.ts
-- registers. Nobody waits for their promises, so that a throw in one is dropped.
use state_channels_plus.Prelude.{ℕ}
use state_channels_plus.Data.{Bytes, SignedBlock}
use state_channels_plus.Proofs.{Dispute}
use state_channels_plus.Manager.{
  Env, ManagerState, set_state, collect_on_chain_block, on_dispute_update,
}
use state_channels_plus.Manager.Reach.{Step, state_set, posted, dispute_updated}

pub data ContractEvent : Type 0 where
  set_state_event : Bytes → ℕ → ℕ → ContractEvent
  block_calldata_posted : SignedBlock → ℕ → ContractEvent
  dispute_event : Dispute → ContractEvent

module _ {M : Type 0} (env : Env M) (now : ℕ) where
  unfoldable pub on_contract_event : ContractEvent → ManagerState M → ManagerState M
  on_contract_event (ContractEvent.set_state_event encoded fork_cnt timestamp) s =
      (set_state env now encoded fork_cnt timestamp s).1
  on_contract_event (ContractEvent.block_calldata_posted signed timestamp) s =
      (collect_on_chain_block env now signed timestamp s).1
  on_contract_event (ContractEvent.dispute_event dispute) s =
      (on_dispute_update env now dispute s).1

  -- Each event is a call that the manager answers.
  pub on_contract_event-Step :
      (event : ContractEvent) (s : ManagerState M) → Step env s (on_contract_event event s)
  unfolding on_contract_event
  on_contract_event-Step (ContractEvent.set_state_event encoded fork_cnt timestamp) s =
      state_set s now encoded fork_cnt timestamp
  on_contract_event-Step (ContractEvent.block_calldata_posted signed timestamp) s =
      posted s now signed timestamp
  on_contract_event-Step (ContractEvent.dispute_event dispute) s = dispute_updated s now dispute
