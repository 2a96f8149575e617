-- ===== src/Proofs/Filter.antt =====
-- The filter keeps exactly the proofs that speak against the dispute.
use state_channels_plus.Prelude.{
  ℕ, ◌≡◌, ◌↔◌, ◌≢◌, refl, sym, ap, ◌∙◌, inl, inr, Bool, true, some, List, [], ◌∷◌, get_elem?, zero,
  suc, Elem, ok, >>=-eq-ok, arith, Bool-cases,
}
use state_channels_plus.Data.{Ethers}
use state_channels_plus.Proofs.Types.{Proof, ProofCoder, Dispute, bigint}
use state_channels_plus.Proofs.Meaning.{Speaks, validator-Speaks}
use state_channels_plus.Proofs.Valid.{is_fold_rechallenge_valid, validator, filter_valid_proofs}

ok-injective : (a b : Bool) → ok a ≡ ok b → a ≡ b
ok-injective a b h = ground arith

module _ (e : Ethers) (coder : ProofCoder) (now : ℕ) (dispute : Dispute) where
  -- A proof stays exactly when it was given and its validator says true.
  filter-keeps :
      (ps qs : List Proof) (p : Proof) (i : ℕ)
      → filter_valid_proofs e coder now dispute ps ≡ ok qs
      → get_elem? ps i ≡ some p
      → validator e coder now p.proof_type p dispute ≡ ok true
      → Elem p qs
  unfolding filter_valid_proofs
  filter-keeps [] qs p i h at v = absurd (ground arith)
  filter-keeps (q ∷ ps) qs p zero h at v =
      let (valid, hv, h') = >>=-eq-ok (validator e coder now q.proof_type q dispute) _ h in
      let (rest, hr, built) = >>=-eq-ok (filter_valid_proofs e coder now dispute ps) _ h' in
      let same : q ≡ p = ground arith in
      let accepted : valid ≡ true = ok-injective valid true (sym hv ∙ rw same v) in
      (0, ground arith)
  filter-keeps (q ∷ ps) qs p (suc i) h at v =
      let (valid, hv, h') = >>=-eq-ok (validator e coder now q.proof_type q dispute) _ h in
      let (rest, hr, built) = >>=-eq-ok (filter_valid_proofs e coder now dispute ps) _ h' in
      let (j, kept) = filter-keeps ps rest p i hr at v in
      elim (Bool-cases valid) [ inl stays ↦ (suc j, ground arith) | inr goes ↦ (j, ground arith) ]

  filter-accepts_head :
      (q : Proof) (ps rest : List Proof) (p : Proof) (j : ℕ)
      → validator e coder now q.proof_type q dispute ≡ ok true
      → ((i : ℕ)
          → get_elem? rest i ≡ some p
          → Elem p ps × (validator e coder now p.proof_type p dispute ≡ ok true))
      → get_elem? (q ∷ rest) j ≡ some p
      → Elem p (q ∷ ps) × (validator e coder now p.proof_type p dispute ≡ ok true)
  filter-accepts_head q ps rest p zero hv below at =
      let same : q ≡ p = ground arith in ((0, ground arith), rw (← same) hv)
  filter-accepts_head q ps rest p (suc j) hv below at =
      let ((i, there), v) = below j at in ((suc i, there), v)

  filter-accepts :
      (ps qs : List Proof) (p : Proof) (j : ℕ)
      → filter_valid_proofs e coder now dispute ps ≡ ok qs
      → get_elem? qs j ≡ some p
      → Elem p ps × (validator e coder now p.proof_type p dispute ≡ ok true)
  unfolding filter_valid_proofs
  filter-accepts [] qs p j h at = absurd (ground arith)
  filter-accepts (q ∷ ps) qs p j h at =
      let (valid, hv, h') = >>=-eq-ok (validator e coder now q.proof_type q dispute) _ h in
      let (rest, hr, built) = >>=-eq-ok (filter_valid_proofs e coder now dispute ps) _ h' in
      elim (Bool-cases valid) [
        | inl stays ↦
            filter-accepts_head q ps rest p j (hv ∙ ap ok stays)
              (λ i there. filter-accepts ps rest p i hr there) (ground arith)
        | inr goes ↦
            let ((i, there), v) = filter-accepts ps rest p j hr (ground arith) in
            ((suc i, there), v)
      ]

  -- No validator throws under a filter that goes through.
  filter-answers :
      (ps qs : List Proof) (p : Proof) (i : ℕ)
      → filter_valid_proofs e coder now dispute ps ≡ ok qs
      → get_elem? ps i ≡ some p
      → (v : Bool) × (validator e coder now p.proof_type p dispute ≡ ok v)
  unfolding filter_valid_proofs
  filter-answers [] qs p i h at = absurd (ground arith)
  filter-answers (q ∷ ps) qs p zero h at =
      let (valid, hv, h') = >>=-eq-ok (validator e coder now q.proof_type q dispute) _ h in
      let same : q ≡ p = ground arith in (valid, rw (← same) hv)
  filter-answers (q ∷ ps) qs p (suc i) h at =
      let (valid, hv, h') = >>=-eq-ok (validator e coder now q.proof_type q dispute) _ h in
      let (rest, hr, built) = >>=-eq-ok (filter_valid_proofs e coder now dispute ps) _ h' in
      filter-answers ps rest p i hr at

  -- A filter that goes through keeps exactly those of the given proofs that speak against the dispute, by what each
  -- type of proof has to show.
  pub mem-filter_valid_proofs :
      (ps qs : List Proof) (p : Proof)
      → filter_valid_proofs e coder now dispute ps ≡ ok qs
      → Elem p qs ↔ (Elem p ps × Speaks e coder now dispute p.proof_type p.encoded_proof)
  mem-filter_valid_proofs ps qs p h =
      let meaning = validator-Speaks e coder now dispute p.proof_type p.encoded_proof in
      (
        λ m.
            let (given, accepted) = filter-accepts ps qs p m.0 h m.1 in
            (given, (meaning true accepted).0 refl),
        λ w.
            let (v, answer) = filter-answers ps qs p w.0.0 h w.0.1 in
            let yes : v ≡ true = (meaning v answer).1 w.1 in
            filter-keeps ps qs p w.0.0 h w.0.1 (answer ∙ ap ok yes),
      )

-- Against a dispute as ethers decodes it, whose numbers are bigints, no fold rechallenge is ever
-- valid: a `Number(…)` is compared with a bigint by `===`.
pub is_fold_rechallenge_valid_bigint :
    (e : Ethers) (coder : ProofCoder) (p : Proof) (dispute : Dispute) (n : ℕ)
    → dispute.folded_transaction_cnt ≡ bigint n
    → is_fold_rechallenge_valid e coder p dispute ≢ ok true
unfolding is_fold_rechallenge_valid
is_fold_rechallenge_valid_bigint e coder p dispute n h v = ground arith
