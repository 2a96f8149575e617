-- ===== src/Ledger/Open.antt =====
-- A place at which a block could once be added: it is never beyond the end of its fork.
use state_channels_plus.Prelude.{
  ℕ, ◌-◌, ◌≡◌, ◌≤◌, ◌⊎◌, inl, inr, some, ok, length, length-modify_at, modify_at, [], ◌∷◌,
  length-append, get_elem?-push, get_elem?-modify_at, lt_of_get_elem?, arith, Option-cases,
  Bool-cases, ◌==◌,
}
use state_channels_plus.Data.{Ethers, Bytes, Signature, Block, get_fork, get_height}
use state_channels_plus.AgreementTypes.{ChainBlock, AgreementFork, Forks}
use state_channels_plus.Forks.{
  fork_at, get_agreement_by_block, new_fork, add_agreement, push_agreement, add_chain_block,
  push_chain_block, add_block, get_latest_fork_cnt, get_next_block_height,
}
use state_channels_plus.Forks.Ordered.{new_agreement, add_block_ok}
use state_channels_plus.Agreement.{
  confirm_block, push_signature, push_signature_at, modify_agreement,
}
use state_channels_plus.Ledger.Changes.{
  IsNext, Change, opened, added, confirmed, posted, Changes, still, also,
}

-- The height is 0, or there is the fork, and it goes up to the height.
abbrev pub IsOpen : Forks → ℕ → ℕ → Type 0
IsOpen fs f h =
    (h ≡ 0) ⊎ (fk : AgreementFork) × (fork_at fs f ≡ some fk) × (h ≤ length fk.agreements)

pub next-IsOpen : (fs : Forks) → IsOpen fs (get_latest_fork_cnt fs) (get_next_block_height fs)
unfolding get_latest_fork_cnt get_next_block_height
next-IsOpen fs = elim (Option-cases (fork_at fs (length fs - 1))) [
  | inl missing ↦ inl (ground arith)
  | inr (fk, found) ↦ inr (fk, found, ground arith)
]

IsOpen-modify_at :
    (g : AgreementFork → AgreementFork) (i : ℕ) (fs : Forks) (f h : ℕ)
    → ((fk : AgreementFork) → length fk.agreements ≤ length (g fk).agreements)
    → IsOpen fs f h
    → IsOpen (modify_at g i fs) f h
IsOpen-modify_at g i fs f h grows (inl first) = inl first
IsOpen-modify_at g i fs f h grows (inr (fk, found, below)) = elim (Bool-cases (i == f)) [
  | inl at ↦ inr (g fk, ground (arith, get_elem?-modify_at g i f fs), ground (arith, grows fk))
  | inr apart ↦ inr (fk, ground (arith, get_elem?-modify_at g i f fs), below)
]

Change-IsOpen :
    (e : Ethers) {fs gs : Forks} (f h : ℕ) → Change e fs gs → IsOpen fs f h → IsOpen gs f h
unfolding new_fork confirm_block push_signature_at add_chain_block add_agreement
Change-IsOpen e f h (opened g addresses cnt ts fs) (inl first) = inl first
Change-IsOpen e f h (opened g addresses cnt ts fs) (inr (fk, found, below)) =
    let new : AgreementFork = record {
      fork_genesis_state_encoded = g;
      addresses_in_threshold = addresses;
      genesis_timestamp = ts;
      chain_blocks = [];
      agreements = [];
    } in
    inr (fk, ground (arith, get_elem?-push fs new f, lt_of_get_elem? fs f fk found), below)
Change-IsOpen e f h (added {fs} {gs} b x state at hs k) o =
    let (fk, found, above, same) = add_block_ok b x state fs gs k in
    rw same (
      IsOpen-modify_at (push_agreement (new_agreement b x state)) (get_fork b) fs f h
        (λ fk. omega (arith, length-append fk.agreements (new_agreement b x state ∷ []))) o)
Change-IsOpen e f h (confirmed {fs} {gs} b x k) o =
    elim (Option-cases (get_agreement_by_block fs b)) [
      | inl missing ↦ absurd (ground arith)
      | inr (a, found) ↦
          let same : gs ≡ push_signature_at b x fs = ground arith in
          rw same (
            IsOpen-modify_at (modify_agreement (push_signature x) (get_height b)) (get_fork b) fs f
              h
              (λ fk.
                omega (arith, length-modify_at (push_signature x) (get_height b) fk.agreements))
              o)
    ]
Change-IsOpen e f h (posted {fs} {gs} i t p ts k) o =
    let c : ChainBlock = record { transaction_cnt = t; participant_adr = p; timestamp = ts } in
    let same : gs ≡ modify_at (push_chain_block c) i fs = ground arith in
    rw same (IsOpen-modify_at (push_chain_block c) i fs f h (λ fk. omega arith) o)

-- A place stays open, or is taken: no change takes a fork back.
pub Changes-IsOpen :
    (e : Ethers) {fs gs : Forks} (f h : ℕ) → Changes e fs gs → IsOpen fs f h → IsOpen gs f h
Changes-IsOpen e f h still o = o
Changes-IsOpen e f h (also c x) o = Change-IsOpen e f h x (Changes-IsOpen e f h c o)

-- What `addBlock` accepts at such a place is at the end of its fork.
pub IsOpen-IsNext :
    (b : Block) (x : Signature) (state : Bytes) (fs gs : Forks)
    → IsOpen fs (get_fork b) (get_height b)
    → add_block b x state fs ≡ ok gs
    → IsNext fs (get_fork b) (get_height b)
IsOpen-IsNext b x state fs gs o k fk found =
    let (fk', found', above, same) = add_block_ok b x state fs gs k in
    elim o [ inl first ↦ ground arith | inr (fk'', found'', below) ↦ ground arith ]
