-- ===== src/Evm.antt =====
-- The state machine as a contract in an EVM: src/evm/EvmStateMachine.ts and src/evm/ContractExecuter.ts. The EVM of
-- ethereumjs, over a state of its own, and the interface of the contract by ethers are parameters.
pub mod Views
use state_channels_plus.Prelude.{
  ℕ, Bool, true, false, Option, none, some, List, [], ◌∷◌, if◌then◌else◌, Result, ok, throw, Error,
  or_throw,
}
use state_channels_plus.Prelude.Action.{Action, reads, ◌>>=◌}
use state_channels_plus.Data.{Bytes, Address, Transaction}
use state_channels_plus.Manager.{Machine}

-- `ExecResult`: whether there is an exception error, and what the call returned and logged.
pub record ExecResult : Type 0 where
  pub exception_error : Bool
  pub return_value : Bytes
  pub logs : List Bytes

-- The functions of the contract that the class calls, with their arguments.
pub data ContractCall : Type 0 where
  state_transition : Transaction → ContractCall
  set_state : Bytes → ContractCall
  get_participants get_next_to_write get_state : ContractCall

-- `evm.runCall` on the address of the contract, `encodeFunctionData`, the decoding of what is returned, which
-- throws on bytes of another type, and `parseLog`, with what it gives to `emit`.
pub record ContractInterface (V : Type 0) : Type 0 where
  pub run_call : Bytes → V → ExecResult × V
  pub encode_function_data : ContractCall → Bytes
  pub decode_addresses : Bytes → Option (List Address)
  pub decode_address : Bytes → Option Address
  pub decode_bytes : Bytes → Option Bytes
  pub parse_log : Bytes → Option ℕ

module _ {V : Type 0} (evm : ContractInterface V) where
  unfoldable pub execute_call : Bytes → Action V ExecResult
  execute_call calldata v =
      let (result, v') = evm.run_call calldata v in
      if result.exception_error then (throw Error.not_successful, v') else (ok result, v')

  abbrev pub emit_if : Option ℕ → List ℕ → List ℕ
  emit_if none events = events
  emit_if (some event) events = event ∷ events

  -- The events that `processLogs` emits on the contract instance of the application, once it is set: a log that does not parse is passed over.
  unfoldable pub process_logs : List Bytes → List ℕ
  process_logs [] = []
  process_logs (log ∷ logs) = let rest = process_logs logs in emit_if (evm.parse_log log) rest

  -- `stateTransition`, with the logs that its callback processes.
  unfoldable pub transition : Transaction → V → (Bool × List Bytes) × V
  unfolding execute_call
  transition tx v =
      let (r, v') = execute_call (evm.encode_function_data (ContractCall.state_transition tx)) v in
      elim r [ ok result ↦ ((true, result.logs), v') | throw err ↦ ((false, []), v') ]

  unfoldable pub run_view : Bytes → Action V Bytes
  unfolding execute_call
  run_view calldata = do result ← execute_call calldata; reads (λ v. ok result.return_value)

  -- A call whose value is decoded; a throw is thrown on with its context.
  unfoldable pub read_call : {A : Type 0} → ContractCall → (Bytes → Option A) → Action V A
  unfolding execute_call
  read_call call decode v =
      let (r, v') = execute_call (evm.encode_function_data call) v in
      elim r [
        | throw err ↦ (throw err, v')
        | ok result ↦ (or_throw (decode result.return_value) Error.bad_encoding, v')
      ]

  unfoldable pub read_participants : Action V (List Address)
  unfolding read_call
  read_participants = read_call ContractCall.get_participants evm.decode_addresses

  unfoldable pub read_next_to_write : Action V Address
  unfolding read_call
  read_next_to_write = read_call ContractCall.get_next_to_write evm.decode_address

  unfoldable pub read_state : Action V Bytes
  unfolding read_call
  read_state = read_call ContractCall.get_state evm.decode_bytes

  unfoldable pub write_state : Bytes → Action V Bool
  unfolding execute_call
  write_state serialized = do
    result ← execute_call (evm.encode_function_data (ContractCall.set_state serialized))
    reads (λ v. ok true)
