-- ===== src/Tests/Stored.antt =====
-- The properties of the stored agreements and of the checks of blocks, at concrete inputs.
use state_channels_plus.Prelude.{
  length, zero, suc, ℕ, ◌≡◌, ◌≢◌, ◌⊎◌, ◌↔◌, refl, true, false, some, [], ◌∷◌, ◌==◌, ◌&&◌, ok, arith,
  if◌then◌else◌,
}
use state_channels_plus.Data.{
  Address, Block, SignedBlock, AgreementFlag, decode_block, encode_block, get_fork, get_height,
  get_block_author, retrieve_signer_address_block,
}
use state_channels_plus.Data.Blocks.{SignedBy, get_signer_addresses}
use state_channels_plus.SetUtils.{has, symmetric_difference, exclude_from_array}
use state_channels_plus.AgreementTypes.{Agreement, AgreementFork, Forks}
use state_channels_plus.Forks.{fork_at, get_agreement, get_agreement_by_block, add_block, new_fork}
use state_channels_plus.Forks.Ordered.{
  IsOrdered, empty-IsOrdered, new_fork-IsOrdered, new_agreement, add_block-IsOrdered,
}
use state_channels_plus.Forks.Hashed.{IsHashed, new_fork-IsHashed}
use state_channels_plus.Queues.{is_block_queued}
use state_channels_plus.Validator.{check}
use state_channels_plus.Validator.Check.{Extends, check-ready_iff, check-double_sign}
use state_channels_plus.Agreement.{
  LatestVotes, confirmed, does_signature_exist_in, push_signature, confirm_block,
  did_everyone_sign_block, get_double_signed_block, get_finalized_and_latest_with_votes,
}
use state_channels_plus.Agreement.Confirm.{
  IsDoubleSign, confirm_block_effect, did_everyone_sign_block_iff, get_double_signed_block_evidence,
}
use state_channels_plus.Agreement.Finality.{IsFinal, get_finalized_and_latest_with_votes-IsFinal}
use state_channels_plus.Agreement.Settled.{get_finalized_and_latest_with_votes-settled}
use state_channels_plus.Tests.World.{
  ethers, first, second, rival, signed_first, signed_second, signed_rival, genesis, stored_first,
  one_block, played,
}

-- The fork before the first block, with that block and its author's signature, and with both.
abbrev opened : Forks
opened = genesis ∷ []

abbrev proposed : AgreementFork
proposed = record genesis { agreements = new_agreement first 1 1 ∷ [] }

abbrev agreed : AgreementFork
agreed = record genesis { agreements = stored_first ∷ [] }

opened-IsOrdered : IsOrdered opened
unfolding new_fork
opened-IsOrdered = new_fork-IsOrdered 0 (1 ∷ 2 ∷ []) 0 50 [] empty-IsOrdered

opened-IsHashed : IsHashed ethers.keccak256 opened
unfolding new_fork get_agreement
opened-IsHashed =
    new_fork-IsHashed ethers.keccak256 0 (1 ∷ 2 ∷ []) 0 50 []
      (record { state_hash = λ i j a p. ground arith })

added : add_block first 1 1 opened ≡ ok (proposed ∷ [])
unfolding state_channels_plus.Forks.get_agreement_by_block state_channels_plus.Forks.get_agreement
    state_channels_plus.Forks.add_agreement state_channels_plus.Forks.add_block
added = refl

proposed-IsOrdered : IsOrdered (proposed ∷ [])
proposed-IsOrdered =
    (add_block-IsOrdered first 1 1 opened (proposed ∷ []) genesis opened-IsOrdered refl refl
      added).0

confirms : confirm_block ethers first 2 (proposed ∷ []) ≡ ok (agreed ∷ [])
unfolding state_channels_plus.Forks.get_agreement_by_block state_channels_plus.Forks.get_agreement
    state_channels_plus.Agreement.confirm_block state_channels_plus.Data.are_blocks_equal
confirms = refl

found_first : get_agreement_by_block played.forks first ≡ some stored_first
unfolding state_channels_plus.Forks.get_agreement_by_block state_channels_plus.Forks.get_agreement
found_first = refl

signers_read : get_signer_addresses ethers first (1 ∷ 2 ∷ []) ≡ ok (1 ∷ 2 ∷ [])
unfolding state_channels_plus.Data.retrieve_signer_address_block
    state_channels_plus.Data.Blocks.get_signer_addresses state_channels_plus.SetUtils.from_array
    state_channels_plus.SetUtils.add_all state_channels_plus.SetUtils.add
signers_read = refl

abbrev settled : LatestVotes
settled = record {
  encoded_latest_finalized_state = 1;
  encoded_latest_correct_state = 1;
  virtual_voting_blocks = confirmed ethers stored_first ∷ [];
}

votes_counted : get_finalized_and_latest_with_votes ethers 0 2 played.forks ≡ ok settled
unfolding state_channels_plus.Data.retrieve_signer_address_block
    state_channels_plus.Data.Blocks.get_signer_addresses
    state_channels_plus.Agreement.get_finalized_and_latest_with_votes
    state_channels_plus.Forks.agreements_backward state_channels_plus.SetUtils.difference
    state_channels_plus.SetUtils.from_array state_channels_plus.SetUtils.delete_all
    state_channels_plus.SetUtils.delete state_channels_plus.SetUtils.add_all
    state_channels_plus.SetUtils.add
votes_counted = refl

decode_second : decode_block ethers 101 ≡ ok second
unfolding decode_block
decode_second = refl

decode_rival : decode_block ethers 3 ≡ ok rival
unfolding decode_block
decode_rival = refl

second_signed : retrieve_signer_address_block ethers second 2 ≡ ok 2
unfolding state_channels_plus.Data.retrieve_signer_address_block
second_signed = refl

nothing_queued : is_block_queued ethers second [] ≡ false
unfolding state_channels_plus.Queues.is_block_queued
nothing_queued = refl

second_is_ready : check ethers played signed_second ≡ ok AgreementFlag.ready
unfolding state_channels_plus.Validator.is_block_duplicate
    state_channels_plus.Forks.get_agreement_by_block state_channels_plus.Forks.get_agreement
    state_channels_plus.Queues.is_block_queued state_channels_plus.Data.decode_block
    state_channels_plus.Forks.get_block state_channels_plus.Data.retrieve_signer_address_block
    state_channels_plus.Validator.check state_channels_plus.Forks.add_chain_block
second_is_ready = refl

rival_is_double_sign : check ethers played signed_rival ≡ ok AgreementFlag.double_sign
unfolding state_channels_plus.Validator.is_block_duplicate
    state_channels_plus.Forks.get_agreement_by_block state_channels_plus.Forks.get_agreement
    state_channels_plus.Queues.is_block_queued state_channels_plus.Data.are_blocks_equal
    state_channels_plus.Data.decode_block state_channels_plus.Forks.get_block
    state_channels_plus.Data.retrieve_signer_address_block state_channels_plus.Validator.check
    state_channels_plus.Forks.add_chain_block
rival_is_double_sign = refl

rival_found : get_double_signed_block ethers signed_rival played.forks ≡ ok (some signed_first)
unfolding state_channels_plus.Forks.get_agreement_by_block state_channels_plus.Forks.get_agreement
    state_channels_plus.Data.are_blocks_equal state_channels_plus.Data.decode_block
    state_channels_plus.Data.retrieve_signer_address_block
    state_channels_plus.Data.Blocks.get_participant_signature
    state_channels_plus.Agreement.get_double_signed_block
rival_found = refl

get_finalized_and_latest_with_votes-IsFinal_example :
    (settled.encoded_latest_finalized_state ≡ 0)
    ⊎ IsFinal ethers played.forks 0
        (1 ∷ 2 ∷ [])
        settled.virtual_voting_blocks
        settled.encoded_latest_finalized_state
get_finalized_and_latest_with_votes-IsFinal_example =
    get_finalized_and_latest_with_votes-IsFinal ethers played.forks 0 2 one_block settled refl
      votes_counted

both_signed : (a : Address) → has (1 ∷ 2 ∷ []) a ≡ true → has (1 ∷ 2 ∷ []) a ≡ true
both_signed a h = h

get_finalized_and_latest_with_votes-settled_example :
    get_finalized_and_latest_with_votes ethers 0 2 played.forks ≡ ok settled
get_finalized_and_latest_with_votes-settled_example =
    get_finalized_and_latest_with_votes-settled ethers played.forks 0 2 one_block stored_first []
      (1 ∷ 2 ∷ []) refl refl signers_read both_signed refl

check-ready_iff_example :
    (check ethers played signed_second ≡ ok AgreementFlag.ready)
    ↔ ((f : AgreementFork) × (fork_at played.forks 0 ≡ some f) × Extends ethers f second)
check-ready_iff_example =
    check-ready_iff ethers played signed_second second decode_second second_signed nothing_queued

check-double_sign_example :
    (ag : Agreement) × (get_agreement played.forks 0 0 ≡ some ag)
    × (get_block_author ag.block ≡ get_block_author rival)
    × (encode_block ethers ag.block ≢ encode_block ethers rival)
    × (retrieve_signer_address_block ethers rival 1 ≡ ok (get_block_author rival))
check-double_sign_example =
    check-double_sign ethers played signed_rival rival decode_rival rival_is_double_sign

played_place :
    (i j : ℕ) (a : Agreement)
    → get_agreement played.forks i j ≡ some a
    → (get_fork a.block ≡ i) × (get_height a.block ≡ j)
unfolding get_agreement
played_place zero zero a p = ground arith
played_place zero (suc j) a p = absurd (ground arith)
played_place (suc i) j a p = absurd (ground arith)

played-IsOrdered : IsOrdered played.forks
played-IsOrdered = record { coordinates = played_place }

rival_signed : retrieve_signer_address_block ethers rival 1 ≡ ok (get_block_author rival)
unfolding retrieve_signer_address_block
rival_signed = refl

get_double_signed_block_evidence_example :
    (ag : Agreement) × (get_agreement_by_block played.forks rival ≡ some ag)
    × (signed_first.encoded_block ≡ encode_block ethers ag.block)
    × IsDoubleSign ethers rival ag.block 1 1
get_double_signed_block_evidence_example =
    get_double_signed_block_evidence ethers signed_rival rival played.forks signed_first
      played-IsOrdered decode_rival rival_signed rival_found

add_block-IsOrdered_example :
    IsOrdered (proposed ∷ [])
    × (get_agreement_by_block (proposed ∷ []) first ≡ some (new_agreement first 1 1))
    × ((i j : ℕ) (a : Agreement)
        → get_agreement opened i j ≡ some a
        → get_agreement (proposed ∷ []) i j ≡ some a)
add_block-IsOrdered_example =
    add_block-IsOrdered first 1 1 opened (proposed ∷ []) genesis opened-IsOrdered refl refl added

confirm_block_effect_example :
    (ag : Agreement) × (get_agreement_by_block (proposed ∷ []) first ≡ some ag)
    × (does_signature_exist_in ag 2 ≡ false)
    × ((i j : ℕ)
        → get_agreement (agreed ∷ []) i j ≡ (
            if i == get_fork first && j == get_height first
            then some (push_signature 2 ag)
            else get_agreement (proposed ∷ []) i j))
    × ((i : ℕ) (f' : AgreementFork)
        → fork_at (agreed ∷ []) i ≡ some f'
        → (f : AgreementFork) × (fork_at (proposed ∷ []) i ≡ some f)
          × (f' ≡ record f { agreements = f'.agreements }))
    × (length (agreed ∷ []) ≡ length (proposed ∷ []))
    × IsOrdered (agreed ∷ [])
confirm_block_effect_example =
    confirm_block_effect ethers first 2 (proposed ∷ []) (agreed ∷ []) proposed-IsOrdered confirms

did_everyone_sign_block_iff_example :
    (did_everyone_sign_block ethers first played.forks ≡ ok true)
    ↔ ((a : Address) → has (1 ∷ 2 ∷ []) a ≡ true → SignedBy ethers first (1 ∷ 2 ∷ []) a)
did_everyone_sign_block_iff_example =
    did_everyone_sign_block_iff ethers first played.forks one_block stored_first (1 ∷ 2 ∷ []) refl
      found_first refl signers_read
