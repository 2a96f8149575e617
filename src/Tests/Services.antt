-- ===== src/Tests/Services.antt =====
-- The properties of the queues, the on-chain tracker, the proofs and the disputes, at concrete inputs.
use state_channels_plus.Prelude.{
  ℕ, ◌≤◌, ◌≡◌, ◌≢◌, ◌⊎◌, ◌↔◌, refl, true, Option, none, some, [], ◌∷◌, Result, ok, throw, Error,
  arith, get_elem?, Elem,
}
use state_channels_plus.Data.{
  Address, Block, SignedBlock, Signature, AgreementFlag, decode_block, encode_block, get_fork,
  get_height, get_block_author,
}
use state_channels_plus.AgreementTypes.{ChainBlock, AgreementState, Forks, Queue}
use state_channels_plus.Forks.{get_agreement, get_agreement_by_block, get_block, add_chain_block}
use state_channels_plus.Queues.{
  waiting, try_dequeue, insert_nested_map_with_overwrite, queue_block, is_block_queued,
}
use state_channels_plus.Queues.Laws.{is_block_queued-queue_block}
use state_channels_plus.OnChain.{latest_timestamp, has_posted, collect}
use state_channels_plus.OnChain.Laws.{latest_timestamp-IsMaximum, Recorded, collect_posts}
use state_channels_plus.Validator.{check}
use state_channels_plus.Agreement.{get_original_signature}
use state_channels_plus.Proofs.{
  Proof, ProofType, Dispute, number, bigint, to_number, validator, filter_valid_proofs,
  is_fold_rechallenge_valid, create_incorrect_data_proof,
}
use state_channels_plus.Proofs.Incorrect.{create_incorrect_data_proof_fails}
use state_channels_plus.Proofs.Meaning.{Speaks}
use state_channels_plus.Proofs.Filter.{mem-filter_valid_proofs, is_fold_rechallenge_valid_bigint}
use state_channels_plus.Disputes.{HandlerState, is_fork_disputed, on_dispute}
use state_channels_plus.Disputes.Rechallenge.{IsBounded, on_dispute_ends}
use state_channels_plus.Tests.World.{
  ethers, coder, contract, first, second, signed_first, signed_second, one_block, played,
  prior_proof, dispute_at, handler,
}

abbrev queued : Queue SignedBlock
queued = (0, (0, (1, signed_first) ∷ []) ∷ (1, (2, signed_second) ∷ []) ∷ []) ∷ []

decode_first : decode_block ethers 1 ≡ ok first
unfolding decode_block
decode_first = refl

decode_second : decode_block ethers 101 ≡ ok second
unfolding decode_block
decode_second = refl

encode_first : encode_block ethers first ≡ 1
unfolding encode_block
encode_first = refl

queues_first : queue_block ethers signed_first [] ≡ ok ((0, (0, (1, signed_first) ∷ []) ∷ []) ∷ [])
unfolding state_channels_plus.Data.decode_block
    state_channels_plus.Agreement.get_finalized_and_latest_with_votes
    state_channels_plus.Agreement.tally_votes state_channels_plus.Forks.agreements_backward
    state_channels_plus.SetUtils.difference state_channels_plus.SetUtils.from_array
    state_channels_plus.SetUtils.delete_all state_channels_plus.SetUtils.delete
    state_channels_plus.SetUtils.add_all state_channels_plus.SetUtils.add
    state_channels_plus.Validator.check state_channels_plus.Validator.check_link
    state_channels_plus.Agreement.get_double_signed_block
    state_channels_plus.Agreement.stored_as_signed state_channels_plus.Queues.queue_block
    state_channels_plus.Queues.insert_nested_map_with_overwrite state_channels_plus.OnChain.collect
    state_channels_plus.OnChain.collect_flagged state_channels_plus.OnChain.record_post
    state_channels_plus.OnChain.has_posted state_channels_plus.Forks.add_chain_block
    state_channels_plus.Proofs.create_incorrect_data_proof
    state_channels_plus.Agreement.get_original_signature
    state_channels_plus.Agreement.get_encoded_state state_channels_plus.Proofs.filter_valid_proofs
    state_channels_plus.Proofs.validator state_channels_plus.Proofs.is_fold_rechallenge_valid
    state_channels_plus.Data.Blocks.retrieve_all state_channels_plus.Disputes.on_dispute
    state_channels_plus.Disputes.rechallenge state_channels_plus.Disputes.set_fork_disputed
    state_channels_plus.Disputes.update_dispute_if_newer
    state_channels_plus.Disputes.should_update_dispute state_channels_plus.Disputes.extract_proofs
    state_channels_plus.Disputes.extract_timeout_proof
    state_channels_plus.Disputes.get_last_transaction_count state_channels_plus.Disputes.add_proof
    state_channels_plus.Disputes.try_challenge
    state_channels_plus.Proofs.create_fold_rechallenge_proof
    state_channels_plus.Proofs.create_newer_state_proof
queues_first = refl

is_block_queued-queue_block_example :
    is_block_queued ethers first ((0, (0, (1, signed_first) ∷ []) ∷ []) ∷ []) ≡ true
is_block_queued-queue_block_example =
    is_block_queued-queue_block ethers first signed_first []
      ((0, (0, (1, signed_first) ∷ []) ∷ []) ∷ []) decode_first encode_first queues_first

latest_is_60 : latest_timestamp played.forks 0 3 ≡ ok 60
unfolding state_channels_plus.OnChain.latest_timestamp state_channels_plus.OnChain.latest_from
    state_channels_plus.Agreement.get_finalized_and_latest_with_votes
    state_channels_plus.Agreement.tally_votes state_channels_plus.Forks.agreements_backward
    state_channels_plus.SetUtils.difference state_channels_plus.SetUtils.from_array
    state_channels_plus.SetUtils.delete_all state_channels_plus.SetUtils.delete
    state_channels_plus.SetUtils.add_all state_channels_plus.SetUtils.add
    state_channels_plus.Validator.check state_channels_plus.Validator.check_link
    state_channels_plus.Agreement.get_double_signed_block
    state_channels_plus.Agreement.stored_as_signed state_channels_plus.Queues.queue_block
    state_channels_plus.Queues.insert_nested_map_with_overwrite state_channels_plus.OnChain.collect
    state_channels_plus.OnChain.collect_flagged state_channels_plus.OnChain.record_post
    state_channels_plus.OnChain.has_posted state_channels_plus.Forks.add_chain_block
    state_channels_plus.Proofs.create_incorrect_data_proof
    state_channels_plus.Agreement.get_original_signature
    state_channels_plus.Agreement.get_encoded_state state_channels_plus.Proofs.filter_valid_proofs
    state_channels_plus.Proofs.validator state_channels_plus.Proofs.is_fold_rechallenge_valid
    state_channels_plus.Data.Blocks.retrieve_all state_channels_plus.Disputes.on_dispute
    state_channels_plus.Disputes.rechallenge state_channels_plus.Disputes.set_fork_disputed
    state_channels_plus.Disputes.update_dispute_if_newer
    state_channels_plus.Disputes.should_update_dispute state_channels_plus.Disputes.extract_proofs
    state_channels_plus.Disputes.extract_timeout_proof
    state_channels_plus.Disputes.get_last_transaction_count state_channels_plus.Disputes.add_proof
    state_channels_plus.Disputes.try_challenge
    state_channels_plus.Proofs.create_fold_rechallenge_proof
    state_channels_plus.Proofs.create_newer_state_proof
latest_is_60 = refl

latest_timestamp-IsMaximum_example :
    ((i : ℕ) (cb : ChainBlock)
      → get_elem? one_block.chain_blocks i ≡ some cb
      → cb.transaction_cnt ≤ 3
      → cb.timestamp ≤ 60)
    × ((◌≡◌ {A = ℕ} 60 0)
        ⊎ ((i : ℕ) × (cb : ChainBlock) × (get_elem? one_block.chain_blocks i ≡ some cb)
            × (cb.transaction_cnt ≤ 3)
            × (60 ≡ cb.timestamp)))
latest_timestamp-IsMaximum_example =
    latest_timestamp-IsMaximum played.forks 0 3 60 one_block refl latest_is_60

abbrev collected : AgreementState
collected = (collect ethers (check ethers) signed_second 70 played).1

second_collected :
    collect ethers (check ethers) signed_second 70 played ≡ (ok AgreementFlag.ready, collected)
unfolding state_channels_plus.Validator.is_block_duplicate
    state_channels_plus.Forks.get_agreement_by_block state_channels_plus.Forks.get_agreement
    state_channels_plus.Queues.is_block_queued state_channels_plus.Data.decode_block
    state_channels_plus.Forks.get_block state_channels_plus.Data.retrieve_signer_address_block
    state_channels_plus.Agreement.get_finalized_and_latest_with_votes
    state_channels_plus.Agreement.tally_votes state_channels_plus.Forks.agreements_backward
    state_channels_plus.SetUtils.difference state_channels_plus.SetUtils.from_array
    state_channels_plus.SetUtils.delete_all state_channels_plus.SetUtils.delete
    state_channels_plus.SetUtils.add_all state_channels_plus.SetUtils.add
    state_channels_plus.Validator.check state_channels_plus.Validator.check_link
    state_channels_plus.Agreement.get_double_signed_block
    state_channels_plus.Agreement.stored_as_signed state_channels_plus.Queues.queue_block
    state_channels_plus.Queues.insert_nested_map_with_overwrite state_channels_plus.OnChain.collect
    state_channels_plus.OnChain.collect_flagged state_channels_plus.OnChain.record_post
    state_channels_plus.OnChain.has_posted state_channels_plus.Forks.add_chain_block
    state_channels_plus.Proofs.create_incorrect_data_proof
    state_channels_plus.Agreement.get_original_signature
    state_channels_plus.Agreement.get_encoded_state state_channels_plus.Proofs.filter_valid_proofs
    state_channels_plus.Proofs.validator state_channels_plus.Proofs.is_fold_rechallenge_valid
    state_channels_plus.Data.Blocks.retrieve_all state_channels_plus.Disputes.on_dispute
    state_channels_plus.Disputes.rechallenge state_channels_plus.Disputes.set_fork_disputed
    state_channels_plus.Disputes.update_dispute_if_newer
    state_channels_plus.Disputes.should_update_dispute state_channels_plus.Disputes.extract_proofs
    state_channels_plus.Disputes.extract_timeout_proof
    state_channels_plus.Disputes.get_last_transaction_count state_channels_plus.Disputes.add_proof
    state_channels_plus.Disputes.try_challenge
    state_channels_plus.Proofs.create_fold_rechallenge_proof
    state_channels_plus.Proofs.create_newer_state_proof
second_collected = refl

collect_posts_example :
    (check ethers played signed_second ≡ ok AgreementFlag.ready)
    × Recorded AgreementFlag.ready second played collected
collect_posts_example =
    collect_posts ethers (check ethers) signed_second second 70 played collected AgreementFlag.ready
      decode_second second_collected

second_is_new : get_agreement_by_block played.forks second ≡ none
unfolding state_channels_plus.Forks.get_agreement_by_block state_channels_plus.Forks.get_agreement
    state_channels_plus.Agreement.get_finalized_and_latest_with_votes
    state_channels_plus.Agreement.tally_votes state_channels_plus.Forks.agreements_backward
    state_channels_plus.SetUtils.difference state_channels_plus.SetUtils.from_array
    state_channels_plus.SetUtils.delete_all state_channels_plus.SetUtils.delete
    state_channels_plus.SetUtils.add_all state_channels_plus.SetUtils.add
    state_channels_plus.Validator.check state_channels_plus.Validator.check_link
    state_channels_plus.Agreement.get_double_signed_block
    state_channels_plus.Agreement.stored_as_signed state_channels_plus.Queues.queue_block
    state_channels_plus.Queues.insert_nested_map_with_overwrite state_channels_plus.OnChain.collect
    state_channels_plus.OnChain.collect_flagged state_channels_plus.OnChain.record_post
    state_channels_plus.OnChain.has_posted state_channels_plus.Forks.add_chain_block
    state_channels_plus.Proofs.create_incorrect_data_proof
    state_channels_plus.Agreement.get_original_signature
    state_channels_plus.Agreement.get_encoded_state state_channels_plus.Proofs.filter_valid_proofs
    state_channels_plus.Proofs.validator state_channels_plus.Proofs.is_fold_rechallenge_valid
    state_channels_plus.Data.Blocks.retrieve_all state_channels_plus.Disputes.on_dispute
    state_channels_plus.Disputes.rechallenge state_channels_plus.Disputes.set_fork_disputed
    state_channels_plus.Disputes.update_dispute_if_newer
    state_channels_plus.Disputes.should_update_dispute state_channels_plus.Disputes.extract_proofs
    state_channels_plus.Disputes.extract_timeout_proof
    state_channels_plus.Disputes.get_last_transaction_count state_channels_plus.Disputes.add_proof
    state_channels_plus.Disputes.try_challenge
    state_channels_plus.Proofs.create_fold_rechallenge_proof
    state_channels_plus.Proofs.create_newer_state_proof
second_is_new = refl

create_incorrect_data_proof_fails_example :
    (err : Error) × (create_incorrect_data_proof ethers coder 0 played.forks signed_second
      ≡ throw err)
create_incorrect_data_proof_fails_example =
    create_incorrect_data_proof_fails ethers coder 0 played.forks signed_second second decode_second
      (omega arith) second_is_new

filtered :
    filter_valid_proofs ethers coder 52 (dispute_at 7 1) (prior_proof 5 ∷ prior_proof 0 ∷ [])
    ≡ ok (prior_proof 0 ∷ [])
unfolding state_channels_plus.Agreement.get_finalized_and_latest_with_votes
    state_channels_plus.Agreement.tally_votes state_channels_plus.Forks.agreements_backward
    state_channels_plus.SetUtils.difference state_channels_plus.SetUtils.from_array
    state_channels_plus.SetUtils.delete_all state_channels_plus.SetUtils.delete
    state_channels_plus.SetUtils.add_all state_channels_plus.SetUtils.add
    state_channels_plus.Validator.check state_channels_plus.Validator.check_link
    state_channels_plus.Agreement.get_double_signed_block
    state_channels_plus.Agreement.stored_as_signed state_channels_plus.Queues.queue_block
    state_channels_plus.Queues.insert_nested_map_with_overwrite state_channels_plus.OnChain.collect
    state_channels_plus.OnChain.collect_flagged state_channels_plus.OnChain.record_post
    state_channels_plus.OnChain.has_posted state_channels_plus.Forks.add_chain_block
    state_channels_plus.Proofs.create_incorrect_data_proof
    state_channels_plus.Agreement.get_original_signature
    state_channels_plus.Agreement.get_encoded_state state_channels_plus.Proofs.filter_valid_proofs
    state_channels_plus.Proofs.validator state_channels_plus.Proofs.is_fold_rechallenge_valid
    state_channels_plus.Data.Blocks.retrieve_all state_channels_plus.Disputes.on_dispute
    state_channels_plus.Disputes.rechallenge state_channels_plus.Disputes.set_fork_disputed
    state_channels_plus.Disputes.update_dispute_if_newer
    state_channels_plus.Disputes.should_update_dispute state_channels_plus.Disputes.extract_proofs
    state_channels_plus.Disputes.extract_timeout_proof
    state_channels_plus.Disputes.get_last_transaction_count state_channels_plus.Disputes.add_proof
    state_channels_plus.Disputes.try_challenge
    state_channels_plus.Proofs.create_fold_rechallenge_proof
    state_channels_plus.Proofs.create_newer_state_proof
filtered = refl

mem-filter_valid_proofs_example : Elem (prior_proof 0) (prior_proof 0 ∷ []) ↔ (
    Elem (prior_proof 0) (prior_proof 5 ∷ prior_proof 0 ∷ [])
    × Speaks ethers coder 52 (dispute_at 7 1) ProofType.fold_prior_block 0)
mem-filter_valid_proofs_example =
    mem-filter_valid_proofs ethers coder 52 (dispute_at 7 1) (prior_proof 5 ∷ prior_proof 0 ∷ [])
      (prior_proof 0 ∷ []) (prior_proof 0) filtered

-- The fold rechallenge that the second block makes, whose height is the disputed one.
abbrev rechallenge_proof : Proof
rechallenge_proof = record { proof_type = ProofType.fold_rechallenge; encoded_proof = 101 }

-- With a number for the disputed height and its author for the accused, the same proof is valid.
number_is_valid :
    is_fold_rechallenge_valid ethers coder rechallenge_proof
      (record (dispute_at 7 1) { folded_transaction_cnt = number 1; timedout_participant = 2 })
    ≡ ok true
unfolding state_channels_plus.Data.decode_block
    state_channels_plus.Agreement.get_finalized_and_latest_with_votes
    state_channels_plus.Agreement.tally_votes state_channels_plus.Forks.agreements_backward
    state_channels_plus.SetUtils.difference state_channels_plus.SetUtils.from_array
    state_channels_plus.SetUtils.delete_all state_channels_plus.SetUtils.delete
    state_channels_plus.SetUtils.add_all state_channels_plus.SetUtils.add
    state_channels_plus.Validator.check state_channels_plus.Validator.check_link
    state_channels_plus.Agreement.get_double_signed_block
    state_channels_plus.Agreement.stored_as_signed state_channels_plus.Queues.queue_block
    state_channels_plus.Queues.insert_nested_map_with_overwrite state_channels_plus.OnChain.collect
    state_channels_plus.OnChain.collect_flagged state_channels_plus.OnChain.record_post
    state_channels_plus.OnChain.has_posted state_channels_plus.Forks.add_chain_block
    state_channels_plus.Proofs.create_incorrect_data_proof
    state_channels_plus.Agreement.get_original_signature
    state_channels_plus.Agreement.get_encoded_state state_channels_plus.Proofs.filter_valid_proofs
    state_channels_plus.Proofs.validator state_channels_plus.Proofs.is_fold_rechallenge_valid
    state_channels_plus.Data.Blocks.retrieve_all state_channels_plus.Disputes.on_dispute
    state_channels_plus.Disputes.rechallenge state_channels_plus.Disputes.set_fork_disputed
    state_channels_plus.Disputes.update_dispute_if_newer
    state_channels_plus.Disputes.should_update_dispute state_channels_plus.Disputes.extract_proofs
    state_channels_plus.Disputes.extract_timeout_proof
    state_channels_plus.Disputes.get_last_transaction_count state_channels_plus.Disputes.add_proof
    state_channels_plus.Disputes.try_challenge
    state_channels_plus.Proofs.create_fold_rechallenge_proof
    state_channels_plus.Proofs.create_newer_state_proof
number_is_valid = refl

is_fold_rechallenge_valid_bigint_example :
    is_fold_rechallenge_valid ethers coder rechallenge_proof
      (record (dispute_at 7 1) { timedout_participant = 2 })
    ≢ ok true
is_fold_rechallenge_valid_bigint_example =
    is_fold_rechallenge_valid_bigint ethers coder rechallenge_proof
      (record (dispute_at 7 1) { timedout_participant = 2 }) 1 refl

pub contract-IsBounded : IsBounded ethers coder 52 contract 7 2 0 3
contract-IsBounded = record {
  known_fork = λ channel w. omega arith;
  below = λ channel w. ground arith;
}

on_dispute_ends_example :
    (r : Result (Unit {0}) × HandlerState ℕ) × (on_dispute ethers coder 52 contract 7 2 5
        (dispute_at 7 1)
        handler
      ≡ some r)
on_dispute_ends_example =
    on_dispute_ends ethers coder 52 contract 7 2 0 3 (dispute_at 7 1) handler contract-IsBounded
      (omega arith) (omega arith)

abbrev or_else : Option (Result (Unit {0}) × HandlerState ℕ) → Result (Unit {0}) × HandlerState ℕ
or_else none = (ok tt, handler)
or_else (some r) = r

abbrev answered : Result (Unit {0}) × HandlerState ℕ
answered = or_else (on_dispute ethers coder 52 contract 7 2 5 (dispute_at 7 1) handler)

dispute_answered :
    on_dispute ethers coder 52 contract 7 2 5 (dispute_at 7 1) handler ≡ some answered
unfolding state_channels_plus.Forks.get_agreement state_channels_plus.Forks.get_block
    state_channels_plus.Data.retrieve_signer_address_block
    state_channels_plus.Data.Blocks.get_signer_addresses
    state_channels_plus.Data.Blocks.get_participant_signature
    state_channels_plus.Agreement.get_finalized_and_latest_with_votes
    state_channels_plus.Agreement.tally_votes state_channels_plus.Forks.agreements_backward
    state_channels_plus.SetUtils.difference state_channels_plus.SetUtils.from_array
    state_channels_plus.SetUtils.delete_all state_channels_plus.SetUtils.delete
    state_channels_plus.SetUtils.add_all state_channels_plus.SetUtils.add
    state_channels_plus.Validator.check state_channels_plus.Validator.check_link
    state_channels_plus.Agreement.get_double_signed_block
    state_channels_plus.Agreement.stored_as_signed state_channels_plus.Queues.queue_block
    state_channels_plus.Queues.insert_nested_map_with_overwrite state_channels_plus.OnChain.collect
    state_channels_plus.OnChain.collect_flagged state_channels_plus.OnChain.record_post
    state_channels_plus.OnChain.has_posted state_channels_plus.Forks.add_chain_block
    state_channels_plus.Proofs.create_incorrect_data_proof
    state_channels_plus.Agreement.get_original_signature
    state_channels_plus.Agreement.get_encoded_state state_channels_plus.Proofs.filter_valid_proofs
    state_channels_plus.Proofs.validator state_channels_plus.Proofs.is_fold_rechallenge_valid
    state_channels_plus.Data.Blocks.retrieve_all state_channels_plus.Disputes.on_dispute
    state_channels_plus.Disputes.rechallenge state_channels_plus.Disputes.set_fork_disputed
    state_channels_plus.Disputes.update_dispute_if_newer
    state_channels_plus.Disputes.should_update_dispute state_channels_plus.Disputes.extract_proofs
    state_channels_plus.Disputes.extract_timeout_proof
    state_channels_plus.Disputes.get_last_transaction_count state_channels_plus.Disputes.add_proof
    state_channels_plus.Disputes.try_challenge
    state_channels_plus.Proofs.create_fold_rechallenge_proof
    state_channels_plus.Proofs.create_newer_state_proof
    state_channels_plus.Agreement.did_everyone_sign_block
    state_channels_plus.Agreement.get_signatures
    state_channels_plus.Agreement.get_latest_signed_block_by_participant
dispute_answered = refl

-- Two challenges are taken, and the third leaves the count as it was.
third_challenge : (answered.0 ≡ throw Error.challenge_failed) × (answered.1.chain ≡ 4)
unfolding state_channels_plus.Forks.get_agreement state_channels_plus.Forks.get_block
    state_channels_plus.Data.retrieve_signer_address_block
    state_channels_plus.Data.Blocks.get_signer_addresses
    state_channels_plus.Data.Blocks.get_participant_signature
    state_channels_plus.Agreement.get_finalized_and_latest_with_votes
    state_channels_plus.Agreement.tally_votes state_channels_plus.Forks.agreements_backward
    state_channels_plus.SetUtils.difference state_channels_plus.SetUtils.from_array
    state_channels_plus.SetUtils.delete_all state_channels_plus.SetUtils.delete
    state_channels_plus.SetUtils.add_all state_channels_plus.SetUtils.add
    state_channels_plus.Validator.check state_channels_plus.Validator.check_link
    state_channels_plus.Agreement.get_double_signed_block
    state_channels_plus.Agreement.stored_as_signed state_channels_plus.Queues.queue_block
    state_channels_plus.Queues.insert_nested_map_with_overwrite state_channels_plus.OnChain.collect
    state_channels_plus.OnChain.collect_flagged state_channels_plus.OnChain.record_post
    state_channels_plus.OnChain.has_posted state_channels_plus.Forks.add_chain_block
    state_channels_plus.Proofs.create_incorrect_data_proof
    state_channels_plus.Agreement.get_original_signature
    state_channels_plus.Agreement.get_encoded_state state_channels_plus.Proofs.filter_valid_proofs
    state_channels_plus.Proofs.validator state_channels_plus.Proofs.is_fold_rechallenge_valid
    state_channels_plus.Data.Blocks.retrieve_all state_channels_plus.Disputes.on_dispute
    state_channels_plus.Disputes.rechallenge state_channels_plus.Disputes.set_fork_disputed
    state_channels_plus.Disputes.update_dispute_if_newer
    state_channels_plus.Disputes.should_update_dispute state_channels_plus.Disputes.extract_proofs
    state_channels_plus.Disputes.extract_timeout_proof
    state_channels_plus.Disputes.get_last_transaction_count state_channels_plus.Disputes.add_proof
    state_channels_plus.Disputes.try_challenge
    state_channels_plus.Proofs.create_fold_rechallenge_proof
    state_channels_plus.Proofs.create_newer_state_proof
    state_channels_plus.Agreement.did_everyone_sign_block
    state_channels_plus.Agreement.get_signatures
    state_channels_plus.Agreement.get_latest_signed_block_by_participant
third_challenge = (refl, refl)

abbrev posted_second : Forks
posted_second =
    record one_block {
      chain_blocks =
          record { transaction_cnt = 0; participant_adr = 1; timestamp = 60 }
          ∷ record { transaction_cnt = 1; participant_adr = 2; timestamp = 70 }
          ∷ [];
    }
    ∷ []

second_added : add_chain_block 0 1 2 70 played.forks ≡ ok posted_second
unfolding state_channels_plus.Agreement.get_finalized_and_latest_with_votes
    state_channels_plus.Agreement.tally_votes state_channels_plus.Forks.agreements_backward
    state_channels_plus.SetUtils.difference state_channels_plus.SetUtils.from_array
    state_channels_plus.SetUtils.delete_all state_channels_plus.SetUtils.delete
    state_channels_plus.SetUtils.add_all state_channels_plus.SetUtils.add
    state_channels_plus.Validator.check state_channels_plus.Validator.check_link
    state_channels_plus.Agreement.get_double_signed_block
    state_channels_plus.Agreement.stored_as_signed state_channels_plus.Queues.queue_block
    state_channels_plus.Queues.insert_nested_map_with_overwrite state_channels_plus.OnChain.collect
    state_channels_plus.OnChain.collect_flagged state_channels_plus.OnChain.record_post
    state_channels_plus.OnChain.has_posted state_channels_plus.Forks.add_chain_block
    state_channels_plus.Proofs.create_incorrect_data_proof
    state_channels_plus.Agreement.get_original_signature
    state_channels_plus.Agreement.get_encoded_state state_channels_plus.Proofs.filter_valid_proofs
    state_channels_plus.Proofs.validator state_channels_plus.Proofs.is_fold_rechallenge_valid
    state_channels_plus.Data.Blocks.retrieve_all state_channels_plus.Disputes.on_dispute
    state_channels_plus.Disputes.rechallenge state_channels_plus.Disputes.set_fork_disputed
    state_channels_plus.Disputes.update_dispute_if_newer
    state_channels_plus.Disputes.should_update_dispute state_channels_plus.Disputes.extract_proofs
    state_channels_plus.Disputes.extract_timeout_proof
    state_channels_plus.Disputes.get_last_transaction_count state_channels_plus.Disputes.add_proof
    state_channels_plus.Disputes.try_challenge
    state_channels_plus.Proofs.create_fold_rechallenge_proof
    state_channels_plus.Proofs.create_newer_state_proof
second_added = refl
