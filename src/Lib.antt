-- ===== src/Lib.antt =====
-- A model of the client side of state-channels-plus: the peers of a channel exchange signed blocks,
-- check them, execute them on a state machine, confirm them to each other, and go to a contract on
-- chain when somebody is late or cheats.
--
-- The parts, with the files of the repository that they model:
--   SetUtils        src/utils/set.ts; a `Set` is a list without repetition.
--   Data            contracts/V1/DataTypes.sol, src/types/flags.ts, src/utils/EvmUtils.ts and
--                   src/utils/BlockUtils.ts. Bytes, addresses and signatures are numbers.
--   AgreementTypes  src/agreementManager/types.ts, and the state that the services share.
--   Forks           src/agreementManager/ForkService.ts
--   Queues          src/agreementManager/QueueService.ts
--   OnChain         src/agreementManager/OnChainTracker.ts
--   Validator       src/agreementManager/BlockValidator.ts
--   Agreement       src/agreementManager/AgreementManager.ts and SignatureService.ts
--   Proofs          src/ProofManager.ts, contracts/V1/DisputeTypes.sol
--   Disputes        src/DisputeHandler.ts
--   Mutex           src/utils/Mutex.ts
--   Manager         src/stateManager/: StateManager.ts, ValidationService.ts and the tables of decision
--                   handlers, with `confirmBlock` and `sendTransaction` of src/evm/P2pSigner.ts and the
--                   handlers of src/rpc/services/StateTransitionService.ts
--   Ledger          what the agreements promise: an append-only ledger of blocks and states by fork
--   Retry           src/utils/retry.ts
--   Clock           src/Clock.ts
--   Barrier         src/utils/BarrierLocal.ts
--   Joining         src/utils/SignatureCollectionMap.ts, src/rpc/services/JoinChannelService.ts
--   Peers           src/PeerProfile.ts, src/ProfileManager.ts, the connections of src/P2PManager.ts,
--                   src/rpc/services/InitHandshakeService.ts, `close` of src/transport/ATransport.ts
--                   with the `_close` of src/transport/HolepunchTransport.ts
--   Evm             src/evm/EvmStateMachine.ts and src/evm/ContractExecuter.ts: the calls of the contract
--   Listener        src/StateChannelEventListener.ts
--   Node            the peer as a whole: `onRpc` of src/P2PManager.ts, src/rpc/MainRpcService.ts and
--                   `onMessage` of src/transport/HolepunchTransport.ts
-- Prelude holds the shared names, the errors, the maps and the monad of states and errors; Tests
-- holds concrete runs.
--
-- How they interact: `AgreementManager` hands one `ForkService` and one `QueueService` to the tracker
-- and to the validator, so the four act on one record, `AgreementState`. `StateManager` owns it
-- together with the state machine, the maps of the dispute handler and the mutex: `ManagerState`. An
-- operation keeps its name in the spelling of these files (`onSignedBlock` is `on_signed_block`). One
-- that can throw returns a `Result`; one that also changes state is a function from the state to a
-- result and a state, in which the changes made before a throw are kept. Work that the code
-- schedules, broadcasts or does not wait for is appended to the list `effects`, in order. A call that
-- has to wait for the mutex returns `none`.
--
-- Parameters: ethers (ABI coding, hash, recovery of signers), the coder of proofs, the state machine,
-- the contract, the EVM, the provider of the chain and the time. Nothing is assumed of them but what a
-- theorem names. The machine that Manager is given answers `getState`, `getNextToWrite`,
-- `getParticipants` and `setState` without a throw; Evm has the throws that the methods of
-- `EvmStateMachine` can end with.
--
-- Fuel: `rechallengeRecursive` of the dispute handler is a recursion on fuel, and `none` says that the fuel is
-- used up. Each round takes over a dispute with a higher challenge count than the last one of its fork, so that bounds
-- on the forks and on the counts that the contract reports bound the rounds. `syncClock` is one on fuel as well: two
-- rounds are enough when the chain keeps its pace. Every other loop is a structural recursion.
--
-- Not modelled: the serialization of remote calls and what the transports do to carry them, the set-up of WebRTC
-- and of the discovery of peers, the subscription to events of the contract, the deployment in the EVM, the
-- Solidity contracts, and the examples. An asynchronous function is one step up to its end, where the code does not
-- wait for the mutex; hooks of the application other than those in `effects` are left out, and so is a field of a
-- dispute that the client never reads.
pub mod Prelude
pub mod SetUtils
pub mod Data
pub mod AgreementTypes
pub mod Forks
pub mod Queues
pub mod OnChain
pub mod Validator
pub mod Agreement
pub mod Proofs
pub mod Disputes
pub mod Mutex
pub mod Barrier
pub mod Ledger
pub mod Manager
pub mod Joining
pub mod Retry
pub mod Clock
pub mod Peers
pub mod Evm
pub mod Listener
pub mod Node
pub mod Tests
