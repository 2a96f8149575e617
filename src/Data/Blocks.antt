-- ===== src/Data/Blocks.antt =====
-- The loops over the signatures of a block (src/utils/BlockUtils.ts), and who signed it.
use state_channels_plus.Prelude.{
  ◌≡◌, refl, true, Option, none, some, List, [], ◌∷◌, ◌==◌, if◌then◌else◌, zero, suc, ℕ, inl, inr,
  Bool-cases, >>=-eq-ok, Result, ok, ◌>>=◌, arith, Elem, get_elem?,
}
use state_channels_plus.SetUtils.{has, from_array}
use state_channels_plus.SetUtils.Laws.{has-from_array}
use state_channels_plus.Data.Types.{Address, Signature, Block}
use state_channels_plus.Data.Evm.{Ethers, retrieve_signer_address_block}

module _ (e : Ethers) where
  -- `signatures.map((sig) => retrieveSignerAddressBlock(block, sig))`
  unfoldable pub retrieve_all : Block → List Signature → Result (List Address)
  retrieve_all b [] = ok []
  retrieve_all b (s ∷ ss) = do
    a ← retrieve_signer_address_block e b s
    rest ← retrieve_all b ss
    ok (a ∷ rest)

  unfoldable pub get_signer_addresses : Block → List Signature → Result (List Address)
  unfolding retrieve_all
  get_signer_addresses b signatures = do
    addresses ← retrieve_all b signatures
    ok (from_array addresses)

  -- `some s` is the code's `{ didSign: true, signature: s }`.
  unfoldable pub get_participant_signature :
      Block → List Signature → Address → Result (Option Signature)
  get_participant_signature b [] participant = ok none
  get_participant_signature b (s ∷ ss) participant = do
    a ← retrieve_signer_address_block e b s
    if a == participant then ok (some s) else get_participant_signature b ss participant

  -- One of the signatures is the address's signature of the block.
  pub record SignedBy (b : Block) (signatures : List Signature) (a : Address) : Type 0 where
    pub witness : Signature
    pub position : Elem witness signatures
    pub recovered : retrieve_signer_address_block e b witness ≡ ok a

  pub SignedBy-cons :
      (b : Block) (s : Signature) (ss : List Signature) (a : Address)
      → SignedBy b ss a
      → SignedBy b (s ∷ ss) a
  SignedBy-cons b s ss a h = record {
    witness = h.witness;
    position = (suc h.position.0, h.position.1);
    recovered = h.recovered;
  }

  retrieve_all-SignedBy :
      (b : Block) (ss : List Signature) (addresses : List Address) (a : Address)
      → retrieve_all b ss ≡ ok addresses
      → has addresses a ≡ true
      → SignedBy b ss a
  unfolding retrieve_all
  retrieve_all-SignedBy b [] addresses a h p = absurd (ground arith)
  retrieve_all-SignedBy b (s ∷ ss) addresses a h p =
      let (first, hf, h') = >>=-eq-ok (retrieve_signer_address_block e b s) _ h in
      let (rest, hr, built) = >>=-eq-ok (retrieve_all b ss) _ h' in
      elim (Bool-cases (first == a)) [
        | inl same ↦ record { witness = s; position = (0, refl); recovered = ground arith }
        | inr other ↦ SignedBy-cons b s ss a (retrieve_all-SignedBy b ss rest a hr (ground arith))
      ]

  -- Whoever is among the signer addresses has a signature.
  pub get_signer_addresses-SignedBy :
      (b : Block) (ss : List Signature) (addresses : List Address) (a : Address)
      → get_signer_addresses b ss ≡ ok addresses
      → has addresses a ≡ true
      → SignedBy b ss a
  unfolding get_signer_addresses
  get_signer_addresses-SignedBy b ss addresses a h p =
      let (all, hall, built) = >>=-eq-ok (retrieve_all b ss) _ h in
      retrieve_all-SignedBy b ss all a hall (ground (arith, has-from_array all a))

  SignedBy-retrieve_all :
      (b : Block) (ss : List Signature) (addresses : List Address) (a : Address) (i : ℕ)
      (s : Signature)
      → retrieve_all b ss ≡ ok addresses
      → get_elem? ss i ≡ some s
      → retrieve_signer_address_block e b s ≡ ok a
      → has addresses a ≡ true
  unfolding retrieve_all
  SignedBy-retrieve_all b [] addresses a i s h p r = ground arith
  SignedBy-retrieve_all b (t ∷ ss) addresses a zero s h p r = ground arith
  SignedBy-retrieve_all b (t ∷ ss) addresses a (suc i) s h p r =
      let (first, hf, h') = >>=-eq-ok (retrieve_signer_address_block e b t) _ h in
      let (rest, hr, built) = >>=-eq-ok (retrieve_all b ss) _ h' in
      ground (arith, SignedBy-retrieve_all b ss rest a i s hr p r)

  -- Whoever has a signature is among the signer addresses.
  pub SignedBy-get_signer_addresses :
      (b : Block) (ss : List Signature) (addresses : List Address) (a : Address)
      → get_signer_addresses b ss ≡ ok addresses
      → SignedBy b ss a
      → has addresses a ≡ true
  unfolding get_signer_addresses
  SignedBy-get_signer_addresses b ss addresses a h w =
      let (all, hall, built) = >>=-eq-ok (retrieve_all b ss) _ h in
      let p =
        SignedBy-retrieve_all b ss all a w.position.0 w.witness hall w.position.1 w.recovered in
      ground (arith, has-from_array all a)

  -- A signature that the search returns is the participant's.
  pub get_participant_signature-SignedBy :
      (b : Block) (ss : List Signature) (a : Address) (s : Signature)
      → get_participant_signature b ss a ≡ ok (some s)
      → Elem s ss × (retrieve_signer_address_block e b s ≡ ok a)
  unfolding get_participant_signature
  get_participant_signature-SignedBy b [] a s h = ground arith
  get_participant_signature-SignedBy b (t ∷ ss) a s h =
      let (first, hf, h') = >>=-eq-ok (retrieve_signer_address_block e b t) _ h in
      elim (Bool-cases (first == a)) [
        | inl same ↦ ((0, ground arith), ground arith)
        | inr other ↦
            let (at, r) = get_participant_signature-SignedBy b ss a s (ground arith) in
            ((suc at.0, at.1), r)
      ]
