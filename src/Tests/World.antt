-- ===== src/Tests/World.antt =====
-- A channel of the two peers 1 and 2 on a counter, seen by peer 2. A signature is the number of its
-- signer, and the hash adds 100.
use state_channels_plus.Prelude.{
  ℕ, ◌+◌, ◌*◌, true, false, Option, none, some, [], ◌∷◌, ◌==◌, ltb, leb, if◌then◌else◌,
}
use state_channels_plus.Data.{Ethers, Bytes, Address, Block, SignedBlock}
use state_channels_plus.AgreementTypes.{Agreement, AgreementFork, AgreementState}
use state_channels_plus.Proofs.{Proof, ProofType, ProofCoder, Dispute, bigint}
use state_channels_plus.Disputes.{Contract, HandlerState}
use state_channels_plus.Manager.{Env, Machine, ManagerState}

abbrev pub make_block : Address → ℕ → ℕ → ℕ → ℕ → Block
make_block author height amount state previous = record {
  transaction = record {
    header = record {
      channel_id = 7;
      participant = author;
      fork_cnt = 0;
      transaction_cnt = height;
      timestamp = 51 + height;
    };
    body = record { transaction_type = 0; encoded_data = amount; payload = 0 };
  };
  state_hash = state + 100;
  previous_state_hash = previous + 100;
}

-- Peer 1 adds 1 to the counter at 0; peer 2 adds 1 to it at 1; and peer 1 double signs with 3.
abbrev pub first : Block
first = make_block 1 0 1 1 0

abbrev pub second : Block
second = make_block 2 1 1 2 1

abbrev pub rival : Block
rival = make_block 1 0 3 3 0

-- A block of a fork that nobody has opened.
abbrev pub stray : Block
stray = record first {
  transaction = record {
    header = record {
      channel_id = 7;
      participant = 1;
      fork_cnt = 3;
      transaction_cnt = 0;
      timestamp = 51;
    };
    body = record { transaction_type = 0; encoded_data = 1; payload = 0 };
  };
}

abbrev pub encode : Block → Bytes
encode b =
    b.transaction.header.fork_cnt * 1000
    + b.transaction.header.transaction_cnt * 100
    + b.transaction.body.encoded_data

abbrev pub decode : Bytes → Option Block
decode n =
    if n == 1
    then some first
    else if n == 101
    then some second
    else if n == 3
    then some rival
    else if n == 3001
    then some stray
    else none

abbrev pub ethers : Ethers
ethers = record {
  abi_encode = encode;
  abi_decode = decode;
  keccak256 = λ n. n + 100;
  verify_message = λ h s. if leb s 9 then some s else none;
}

abbrev pub coder : ProofCoder
coder = record {
  encode_fold_rechallenge = λ p. p.encoded_block;
  decode_fold_rechallenge = λ n. some (record { encoded_block = n; signatures = [] });
  encode_double_sign = λ p. 0;
  decode_double_sign = λ n. some (record { double_signs = [] });
  encode_incorrect_data = λ p. p.block2.encoded_block * 1000 + p.encoded_state;
  decode_incorrect_data = λ n. none;
  encode_newer_state = λ p. p.encoded_block;
  decode_newer_state = λ n. some (record { encoded_block = n; confirmation_signature = 0 });
  encode_fold_prior_block = λ p. p.transaction_cnt;
  decode_fold_prior_block = λ n. some (record { transaction_cnt = n });
  encode_block_too_far_in_future = λ p. p.block1.encoded_block;
  decode_block_too_far_in_future = λ n. none;
}

-- The peer with an even state to go is 1, with an odd one 2; a transition to more than 10 fails.
abbrev pub machine : Machine ℕ
machine = record {
  state_transition = λ tx n. (ltb (n + tx.body.encoded_data) 10, n + tx.body.encoded_data);
  get_state = λ n. n;
  set_state = λ bytes n. bytes;
  get_next_to_write = λ n. if n == 0 then 1 else if n == 2 then 1 else 2;
  get_participants = λ n. 1 ∷ 2 ∷ [];
}

abbrev pub env : Env ℕ
env = record {
  ethers = ethers;
  coder = coder;
  machine = machine;
  sign_message = λ n. 2;
  signer_address = 2;
  time_config = record {
    p2p_time = 15;
    agreement_time = 5;
    chain_fallback_time = 30;
    challenge_time = 60;
  };
  empty_state = 0;
  get_chain_latest_block_timestamp = λ c f h. 0;
  is_block_call_data_posted = λ c f h a. false;
}

abbrev pub signed_first : SignedBlock
signed_first = record { encoded_block = 1; signature = 1 }

abbrev pub signed_second : SignedBlock
signed_second = record { encoded_block = 101; signature = 2 }

abbrev pub signed_rival : SignedBlock
signed_rival = record { encoded_block = 3; signature = 1 }

abbrev pub signed_stray : SignedBlock
signed_stray = record { encoded_block = 3001; signature = 1 }

-- A signature that does not parse.
abbrev pub garbled : SignedBlock
garbled = record { encoded_block = 1; signature = 99 }

abbrev pub genesis : AgreementFork
genesis = record {
  fork_genesis_state_encoded = 0;
  addresses_in_threshold = 1 ∷ 2 ∷ [];
  genesis_timestamp = 50;
  chain_blocks = [];
  agreements = [];
}

abbrev pub stored_first : Agreement
stored_first = record { block = first; block_signatures = 1 ∷ 2 ∷ []; encoded_state = 1 }

-- The fork with the first block on it, signed by both, and posted on chain by peer 1.
abbrev pub one_block : AgreementFork
one_block = record genesis {
  chain_blocks = record { transaction_cnt = 0; participant_adr = 1; timestamp = 60 } ∷ [];
  agreements = stored_first ∷ [];
}

abbrev pub fresh : ManagerState ℕ
fresh = record {
  agreements = record { forks = genesis ∷ []; block_q = []; conf_q = [] };
  disputes = record { local_proofs = []; disputes = []; disputed_forks = [] };
  machine = 0;
  channel_id = 7;
  mutex = record { is_locked = false; queue = [] };
  effects = [];
}

-- The agreements with the first block.
abbrev pub played : AgreementState
played = record { forks = one_block ∷ []; block_q = []; conf_q = [] }

abbrev pub prior_proof : ℕ → Proof
prior_proof n = record { proof_type = ProofType.fold_prior_block; encoded_proof = n }

abbrev pub dispute_at : Bytes → ℕ → Dispute
dispute_at channel n = record {
  channel_id = channel;
  fork_cnt = bigint 0;
  challenge_cnt = bigint n;
  virtual_voting_blocks = [];
  timedout_participant = 1;
  folded_transaction_cnt = bigint 1;
  posted_state_disputer = 1;
  slashed_participants = [];
}

-- A contract that takes up to three challenges.
abbrev pub contract : Contract ℕ
contract = record {
  get_dispute = λ channel w. dispute_at channel (if ltb w 3 then w else 3);
  create = λ f votes a n ps w. (true, w + 1);
  challenge = λ f n ps votes w. w + 1;
}

abbrev pub handler : HandlerState ℕ
handler = record {
  handler = record {
    local_proofs = (0, prior_proof 0 ∷ []) ∷ [];
    disputes = [];
    disputed_forks = [];
  };
  forks = one_block ∷ [];
  chain = 1;
}
