-- ===== src/Agreement/Confirm.antt =====
-- Confirmations: what `confirmBlock` adds, and what it takes to say that everyone has signed.
use state_channels_plus.Prelude.{
  ℕ, ◌≡◌, ◌≢◌, ◌↔◌, refl, length, length-modify_at, Bool-cases, inl, inr, Bool, true, false, ◌&&◌,
  none, some, List, [], ◌∷◌, ◌++◌, any, ◌==◌, if◌then◌else◌, ok, throw, Error, arith, Option-cases,
  Result-cases, get_elem?-modify_at,
}
use state_channels_plus.Data.{
  Ethers, Address, Signature, Block, SignedBlock, encode_block, decode_block, get_fork, get_height,
  get_block_author, are_blocks_equal, retrieve_signer_address_block,
}
use state_channels_plus.Data.Blocks.{
  SignedBy, get_signer_addresses, get_signer_addresses-SignedBy, SignedBy-get_signer_addresses,
  get_participant_signature, get_participant_signature-SignedBy,
}
use state_channels_plus.SetUtils.{has, from_array, is_subset}
use state_channels_plus.SetUtils.Laws.{has-from_array, is_subset→has, has→is_subset}
use state_channels_plus.AgreementTypes.{Agreement, AgreementFork, Forks}
use state_channels_plus.Forks.{fork_at, get_agreement, get_agreement_by_block}
use state_channels_plus.Forks.Ordered.{IsOrdered}
use state_channels_plus.Agreement.{
  does_signature_exist_in, push_signature, modify_agreement, push_signature_at, confirm_block,
  stored_as_signed, get_double_signed_block, did_everyone_sign_block,
}

-- The lookup after a push of a signature.
pub get_agreement-push_signature_at :
    (b : Block) (s : Signature) (forks : Forks) (i j : ℕ) (ag : Agreement)
    → get_agreement_by_block forks b ≡ some ag
    → get_agreement (push_signature_at b s forks) i j ≡ (
        if i == get_fork b && j == get_height b
        then some (push_signature s ag)
        else get_agreement forks i j)
unfolding get_agreement get_agreement_by_block push_signature_at
get_agreement-push_signature_at b s forks i j ag h =
    elim (Option-cases (fork_at forks (get_fork b))) [
      | inl unknown ↦ absurd (ground arith)
      | inr (f, found) ↦ ground (
        arith,
        get_elem?-modify_at (modify_agreement (push_signature s) (get_height b)) (get_fork b) i
            forks,
        get_elem?-modify_at (push_signature s) (get_height b) j f.agreements,
      )
    ]

push_signature_at-IsOrdered :
    (b : Block) (s : Signature) (forks : Forks) (ag : Agreement)
    → get_agreement_by_block forks b ≡ some ag
    → IsOrdered forks
    → IsOrdered (push_signature_at b s forks)
unfolding get_agreement_by_block
push_signature_at-IsOrdered b s forks ag h o = record {
  coordinates = λ i j a p. ground (
    arith,
    get_agreement-push_signature_at b s forks i j ag h,
    o.coordinates i j a,
    o.coordinates i j ag,
  );
}

any-push :
    (p : Signature → Bool) (xs : List Signature) (x : Signature)
    → p x ≡ true
    → any p (xs ++ x ∷ []) ≡ true
any-push p [] x h = ground arith
any-push p (y ∷ xs) x h = ground (arith, any-push p xs x h)

-- A fork with other agreements, and nothing else changed.
pub push_signature_at-fork_at :
    (b : Block) (s : Signature) (forks : Forks) (i : ℕ) (f' : AgreementFork)
    → fork_at (push_signature_at b s forks) i ≡ some f'
    → (f : AgreementFork) × (fork_at forks i ≡ some f)
      × (f' ≡ record f { agreements = f'.agreements })
unfolding push_signature_at
push_signature_at-fork_at b s forks i f' h =
    let g = modify_agreement (push_signature s) (get_height b) in
    elim (Option-cases (fork_at forks i)) [
      | inl missing ↦ absurd (ground (arith, get_elem?-modify_at g (get_fork b) i forks))
      | inr (f, found) ↦ elim (Bool-cases (get_fork b == i)) [
        | inl at ↦
            let changed : f' ≡ g f = ground (arith, get_elem?-modify_at g (get_fork b) i forks) in
            (f, found, rw changed refl)
        | inr apart ↦
            let same : f' ≡ f = ground (arith, get_elem?-modify_at g (get_fork b) i forks) in
            (f, found, rw same refl)
      ]
    ]

push_signature_at-length :
    (b : Block) (s : Signature) (forks : Forks)
    → length (push_signature_at b s forks) ≡ length forks
unfolding push_signature_at
push_signature_at-length b s forks =
    length-modify_at (modify_agreement (push_signature s) (get_height b)) (get_fork b) forks

module _ (e : Ethers) where
  -- A confirmation that is accepted appends the signature to the agreement of the block, which had
  -- not held it. It leaves every other agreement as it was, and of each fork the genesis state, the threshold, the
  -- timestamp and the posts; it opens and closes no fork, and keeps the order of the forks.
  pub confirm_block_effect :
      (b : Block) (s : Signature) (forks forks' : Forks)
      → IsOrdered forks
      → confirm_block e b s forks ≡ ok forks'
      → (ag : Agreement) × (get_agreement_by_block forks b ≡ some ag)
        × (does_signature_exist_in ag s ≡ false)
        × ((i j : ℕ)
            → get_agreement forks' i j ≡ (
                if i == get_fork b && j == get_height b
                then some (push_signature s ag)
                else get_agreement forks i j))
        × ((i : ℕ) (f' : AgreementFork)
            → fork_at forks' i ≡ some f'
            → (f : AgreementFork) × (fork_at forks i ≡ some f)
              × (f' ≡ record f { agreements = f'.agreements }))
        × (length forks' ≡ length forks)
        × IsOrdered forks'
  unfolding confirm_block
  confirm_block_effect b s forks forks' o h = elim (Option-cases (get_agreement_by_block forks b)) [
    | inl missing ↦ absurd (ground arith)
    | inr (ag, stored) ↦
        let done : forks' ≡ push_signature_at b s forks = ground arith in
        let view : (i j : ℕ)
            → get_agreement forks' i j ≡ (
                if i == get_fork b && j == get_height b
                then some (push_signature s ag)
                else get_agreement forks i j) =
          λ i j. rw done (get_agreement-push_signature_at b s forks i j ag stored) in
        (
          ag,
          stored,
          ground arith,
          view,
          rw done (push_signature_at-fork_at b s forks),
          rw done (push_signature_at-length b s forks),
          rw done (push_signature_at-IsOrdered b s forks ag stored o),
        )
  ]

  -- The same confirmation is refused the second time.
  pub confirm_block_twice :
      (b : Block) (s : Signature) (forks forks' : Forks)
      → IsOrdered forks
      → confirm_block e b s forks ≡ ok forks'
      → confirm_block e b s forks' ≡ throw Error.already_confirmed
  unfolding confirm_block get_agreement_by_block does_signature_exist_in are_blocks_equal
  confirm_block_twice b s forks forks' o h =
      let (ag, stored, fresh, view, rest, count, ordered) =
        confirm_block_effect b s forks forks' o h in
      ground (arith, view (get_fork b) (get_height b), any-push (λ t. t == s) ag.block_signatures s)

  -- On a stored block whose signatures can all be read, `didEveryoneSignBlock` says true exactly when
  -- each address of the fork's threshold has a signature among those of the block.
  pub did_everyone_sign_block_iff :
      (b : Block) (forks : Forks) (f : AgreementFork) (ag : Agreement) (signers : List Address)
      → fork_at forks (get_fork b) ≡ some f
      → get_agreement_by_block forks b ≡ some ag
      → encode_block e ag.block ≡ encode_block e b
      → get_signer_addresses e b ag.block_signatures ≡ ok signers
      → (did_everyone_sign_block e b forks ≡ ok true) ↔ (
          (a : Address)
          → has f.addresses_in_threshold a ≡ true
          → SignedBy e b ag.block_signatures a)
  unfolding did_everyone_sign_block are_blocks_equal
  did_everyone_sign_block_iff b forks f ag signers hf ha he hs = (
    λ yes_all a m. get_signer_addresses-SignedBy e b ag.block_signatures signers a hs (
        is_subset→has (from_array f.addresses_in_threshold) signers a (ground arith)
          (ground (arith, has-from_array f.addresses_in_threshold a))),
    λ each.
        let all : is_subset (from_array f.addresses_in_threshold) signers ≡ true =
          has→is_subset (from_array f.addresses_in_threshold) signers (λ a m.
            SignedBy-get_signer_addresses e b ag.block_signatures signers a hs
              (each a (ground (arith, has-from_array f.addresses_in_threshold a)))) in
        ground arith,
  )

  -- Two different blocks at one place, each with a signature of their one author.
  pub record IsDoubleSign (b c : Block) (x y : Signature) : Type 0 where
    pub differ : encode_block e b ≢ encode_block e c
    pub same_author : get_block_author c ≡ get_block_author b
    pub same_fork : get_fork c ≡ get_fork b
    pub same_height : get_height c ≡ get_height b
    pub signed : retrieve_signer_address_block e b x ≡ ok (get_block_author b)
    pub signed_as_well : retrieve_signer_address_block e c y ≡ ok (get_block_author b)

  -- If the agreements are in order and an incoming block is signed by its author, then what `getDoubleSignedBlock`
  -- returns for it is the encoding of a block of the chain, and makes with it a double sign: the two blocks
  -- differ, they name the same author, fork and height, and both signatures are of that author.
  pub get_double_signed_block_evidence :
      (signed : SignedBlock) (b : Block) (forks : Forks) (other : SignedBlock)
      → IsOrdered forks
      → decode_block e signed.encoded_block ≡ ok b
      → retrieve_signer_address_block e b signed.signature ≡ ok (get_block_author b)
      → get_double_signed_block e signed forks ≡ ok (some other)
      → (ag : Agreement) × (get_agreement_by_block forks b ≡ some ag)
        × (other.encoded_block ≡ encode_block e ag.block)
        × IsDoubleSign b ag.block signed.signature other.signature
  unfolding get_double_signed_block are_blocks_equal stored_as_signed get_agreement_by_block
  get_double_signed_block_evidence signed b forks other o hd authentic h =
      elim (Option-cases (get_agreement_by_block forks b)) [
        | inl missing ↦ absurd (ground arith)
        | inr (ag, stored) ↦
            let author = get_block_author b in
            elim (Result-cases (get_participant_signature e ag.block ag.block_signatures author)) [
              | inr (err, thrown) ↦ absurd (ground arith)
              | inl (none, nobody) ↦ absurd (ground arith)
              | inl (some s, found) ↦
                  let (at, recovered) =
                    get_participant_signature-SignedBy e ag.block ag.block_signatures author s
                      found in
                  let same : other
                      ≡ record { encoded_block = encode_block e ag.block; signature = s } =
                    ground arith in
                  let (at_fork, at_height) = o.coordinates (get_fork b) (get_height b) ag stored in
                  (
                    ag,
                    stored,
                    ground arith,
                    record {
                      differ = ground arith;
                      same_author = ground arith;
                      same_fork = at_fork;
                      same_height = at_height;
                      signed = authentic;
                      signed_as_well = rw same recovered;
                    },
                  )
            ]
      ]
