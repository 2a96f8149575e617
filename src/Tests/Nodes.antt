-- ===== src/Tests/Nodes.antt =====
-- A peer as a whole, at concrete inputs.
use state_channels_plus.Prelude.{ℕ, none, some, ◌==◌, if◌then◌else◌}
use state_channels_plus.Peers.{TransportType}
use state_channels_plus.Node.{Rpc, NodeState, NodeEnv}
use state_channels_plus.Tests.World.{env, fresh, signed_first}
use state_channels_plus.Tests.Network.{join_env, idle, challenged}

abbrev node_env : NodeEnv ℕ
node_env = record {
  env = env;
  join_env = join_env;
  transport_type = λ t. TransportType.holepunch;
  deserialize = λ n.
      if n == 1
      then some (Rpc.signed_block signed_first)
      else if n == 2
      then some (Rpc.init_handshake_response 1 51 TransportType.holepunch)
      else none;
}

abbrev node : NodeState ℕ
node = record { manager = fresh; peers = challenged; joining = idle }

abbrev after_block : NodeState ℕ
after_block = state_channels_plus.Node.on_message node_env 52 4 1 node

abbrev after_answer : NodeState ℕ
after_answer = state_channels_plus.Node.on_message node_env 52 4 2 after_block

abbrev after_garbage : NodeState ℕ
after_garbage = state_channels_plus.Node.on_message node_env 53 4 9 after_answer
