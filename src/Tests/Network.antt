-- ===== src/Tests/Network.antt =====
-- Joining, retries, disputes that a peer opens, and handshakes, at concrete inputs.
use state_channels_plus.Prelude.{
  ℕ, ◌+◌, ◌≡◌, ◌⊎◌, refl, true, none, some, List, [], ◌∷◌, ◌==◌, leb, if◌then◌else◌, get_elem?,
  Result, ok, throw, Error, arith,
}
use state_channels_plus.Data.{Signature, encode_block, retrieve_signer_address_block}
use state_channels_plus.Joining.{
  Collected, Collections, JoinChannel, SignedJoinChannel, JoinEnv, JoinState, get,
}
use state_channels_plus.Joining.Unheard.{
  JoinEvent, message, IsUnheard, handle_all, handle_all-IsUnheard,
}
use state_channels_plus.Retry.{RetryConfig, retry}
use state_channels_plus.Retry.Attempts.{Attempts, retry-Attempts}
use state_channels_plus.Disputes.{HandlerState, create_dispute}
use state_channels_plus.Disputes.Opening.{create_dispute_ends}
use state_channels_plus.Manager.{own_signature}
use state_channels_plus.Peers.{
  TransportType, Transport, PeerProfile, PeerEffect, PeerState, on_init_handshake_request,
  on_init_handshake_response,
}
use state_channels_plus.Peers.Consistent.{IsConsistent}
use state_channels_plus.Peers.Verified.{
  IsAnswered, on_init_handshake_response-IsAnswered, on_init_handshake_request_signs,
}
use state_channels_plus.Tests.World.{ethers, coder, contract, handler, env, first, prior_proof}
use state_channels_plus.Tests.Services.{contract-IsBounded}

-- Peer 3 asks to join the channel of 1 and 2. A signature is the number of its signer; this peer is 2.
abbrev request : JoinChannel
request = record {
  channel_id = 7;
  participant = 3;
  amount = 5;
  deadline_timestamp = 90;
  payload = 0;
}

abbrev pub join_env : JoinEnv
join_env = record {
  abi_encode = λ jc. jc.amount;
  abi_decode = λ n. if n == 5 then some request else none;
  keccak256 = λ n. n + 100;
  verify_message = λ h s. if leb s 9 then some s else none;
  sign_message = λ n. 2;
}

abbrev signed_request : SignedJoinChannel
signed_request = record { encoded_join_channel = 5; signature = 3 }

abbrev pub idle : JoinState
idle = record { join_channel_map = []; join_channel_queue = []; effects = [] }

-- The request comes in, and peer 1 confirms it.
abbrev events : List JoinEvent
events =
    message signed_request none 52 (1 ∷ 2 ∷ [])
    ∷ message signed_request (some 1) 53 (1 ∷ 2 ∷ [])
    ∷ []

idle-IsUnheard : IsUnheard 2 idle
unfolding get
idle-IsUnheard = record { no_signature = λ key. refl; empty_queue = refl }

handle_all-IsUnheard_example : IsUnheard 2 (handle_all join_env 2 events idle)
handle_all-IsUnheard_example =
    handle_all-IsUnheard join_env 2 events idle
      (
        (refl, λ jc decoded. (λ e. ground arith, λ y given. ground arith)),
        ((refl, λ jc decoded. (λ e. ground arith, λ y given. ground arith)), tt),
      )
      idle-IsUnheard

abbrev signatures : Collections
signatures = (5, record { signer_address = 3; signature = 2 } ∷ []) ∷ []

abbrev from_one : Collected
from_one = record { signer_address = 1; signature = 1 }

-- A function that fails until it has been called three times.
abbrev third_time : ℕ → Result ℕ × ℕ
third_time n = if leb 2 n then (ok 7, n + 1) else (throw Error.type_error, n + 1)

abbrev patient : RetryConfig
patient = record {
  max_retries = 4;
  delay_ms = 100;
  use_exponential_backoff = true;
  backoff_factor = 2;
}

retry-Attempts_example : Attempts third_time patient 4 0 (retry third_time patient 0)
retry-Attempts_example = retry-Attempts third_time patient 0

create_dispute_ends_example :
    (r : Result (Unit {0}) × HandlerState ℕ) × (create_dispute ethers coder 52 contract 7 2 5 0 1 1
        (prior_proof 0 ∷ [])
        handler
      ≡ some r)
create_dispute_ends_example =
    create_dispute_ends ethers coder 52 contract 7 2 0 3 0 1 1 (prior_proof 0 ∷ []) handler
      contract-IsBounded

abbrev own_dispute : Result (Unit {0}) × HandlerState ℕ
own_dispute =
    (create_dispute_ends ethers coder 52 contract 7 2 0 3 0 1 1 (prior_proof 0 ∷ []) handler
      contract-IsBounded).0

-- Peer 2 has sent peer 1 a challenge over transport 4, which answers it.
abbrev pub challenged : PeerState
challenged = record {
  profiles = [];
  map_transport_to_profile = [];
  map_evm_address_to_profile = [];
  map_hp_address_to_profile = [];
  open_connections = 4 ∷ [];
  closed = [];
  map_transport_to_challenge = (4, record { random_challenge_hash = 77; init_time = 50 }) ∷ [];
  sender_transport = some 4;
  preferred_transport = TransportType.holepunch;
  effects = [];
}

pub challenged-IsConsistent : IsConsistent challenged
challenged-IsConsistent = record {
  of_address = λ a p h. ground arith;
  of_transport = λ t p h. ground arith;
}

abbrev kind : Transport → TransportType
kind t = TransportType.holepunch

on_init_handshake_response-IsAnswered_example :
    let s' = (on_init_handshake_response env kind 52 1 51 TransportType.holepunch challenged).1 in
    IsConsistent s'
    × ((q : ℕ) (y : PeerProfile)
        → get_elem? s'.profiles q ≡ some y
        → y.is_handshake_completed ≡ true
        → (get_elem? challenged.profiles q ≡ some y)
          ⊎ IsAnswered env kind 52 1 51 challenged y.evm_address)
on_init_handshake_response-IsAnswered_example =
    on_init_handshake_response-IsAnswered env kind 52 1 51 TransportType.holepunch challenged
      challenged-IsConsistent

on_init_handshake_request_signs_example :
    let s' =
      (on_init_handshake_request env kind 52
        (ethers.keccak256 (encode_block ethers first))
        51
        challenged).1 in
    (x : Signature) × (s'.effects
      ≡ PeerEffect.send_handshake_response 4 x 52 TransportType.holepunch ∷ [])
    × (x ≡ own_signature env first)
    × (retrieve_signer_address_block ethers first x ≡ ok 2)
on_init_handshake_request_signs_example =
    on_init_handshake_request_signs env kind 52 first 51 4 challenged (λ hash. refl) refl refl
