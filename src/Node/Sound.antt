-- ===== src/Node/Sound.antt =====
-- What no remote peer can break.
use state_channels_plus.Prelude.{ℕ}
use state_channels_plus.Data.{Bytes}
use state_channels_plus.Manager.{ManagerState}
use state_channels_plus.Manager.Tasks.{new_transaction, resume_transaction}
use state_channels_plus.Manager.Reach.{Step, Reach}
use state_channels_plus.Peers.{Transport, add_connection, close}
use state_channels_plus.Peers.Consistent.{IsConsistent}
use state_channels_plus.Listener.{ContractEvent, on_contract_event}
use state_channels_plus.Node.{NodeState, NodeEnv, on_message}

module _ {M : Type 0} (e : NodeEnv M) where
  -- What happens to a peer: a message over some transport, which holds any bytes; a connection that opens, with a
  -- random challenge, or that is lost; an event of the contract; and the calls of the manager by its own timers and
  -- the application.
  pub data NodeStep : NodeState M → NodeState M → Type 0 where
    message :
        (n : NodeState M) (now : ℕ) (t : Transport) (serialized : Bytes)
        → NodeStep n (on_message e now t serialized n)
    connected :
        (n : NodeState M) (now : ℕ) (t : Transport) (challenge : Bytes)
        → NodeStep n (record n { peers = add_connection t challenge now n.peers })
    lost : (n : NodeState M) (t : Transport) → NodeStep n (record n { peers = close t n.peers })
    own :
        (n : NodeState M) (m : ManagerState M)
        → Step e.env n.manager m
        → NodeStep n (record n { manager = m })
    noticed :
        (n : NodeState M) (now : ℕ) (event : ContractEvent)
        → NodeStep n (record n { manager = on_contract_event e.env now event n.manager })

  -- Any sequence of these, in which transactions of the application may wait for the mutex.
  pub data NodeReach : NodeState M → NodeState M → Type 0 where
    start : {n : NodeState M} → NodeReach n n
    then_step : {n m k : NodeState M} → NodeReach n m → NodeStep m k → NodeReach n k
    then_resume :
        {n m k : NodeState M} (sent now : ℕ) (payload : Bytes)
        → NodeReach n m
        → NodeReach m k
        → NodeReach n (record k {
          manager =
              (resume_transaction e.env now
                (new_transaction e.env sent payload m.manager)
                k.manager).1;
        })

  -- A state of the peer that follows on another.
  record Keeps (n m : NodeState M) : Type 0 where
    calls : Reach e.env n.manager m.manager
    peers : IsConsistent n.peers → IsConsistent m.peers
