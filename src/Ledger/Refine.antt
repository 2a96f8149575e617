-- ===== src/Ledger/Refine.antt =====
-- Every change of the forks is a step of the ledger.
use state_channels_plus.Prelude.{
  ℕ, ◌≡◌, ◌∙◌, sym, refl, ok, List, [], length, modify_at, arith, inl, inr, Option-cases,
  Bool-cases, ◌==◌,
}
use state_channels_plus.Data.{Ethers, Bytes, Address, Signature, Block, get_fork, get_height}
use state_channels_plus.AgreementTypes.{Agreement, AgreementFork, Forks}
use state_channels_plus.Forks.{
  get_agreement_by_block, new_fork, add_block, add_agreement, push_agreement, add_chain_block,
  push_chain_block,
}
use state_channels_plus.Forks.Ordered.{new_agreement, add_block_ok}
use state_channels_plus.Agreement.{
  confirm_block, push_signature, push_signature_at, modify_agreement,
}
use state_channels_plus.Ledger.{write, Grows, stays, opens, writes, History, here, next}
use state_channels_plus.Ledger.Changes.{
  IsNext, Change, opened, added, confirmed, posted, Changes, still, also,
}
use state_channels_plus.Ledger.View.{
  entry_of_agreement, page_of, ledger, get_elem?-map, length-map, map-push, map-modify_at,
  map-modify_at_hidden, page-push_agreement, page-modify_agreement,
}

ledger-push_signature_at :
    (b : Block) (x : Signature) (fs : Forks) → ledger (push_signature_at b x fs) ≡ ledger fs
unfolding push_signature_at
ledger-push_signature_at b x fs =
    map-modify_at_hidden page_of (modify_agreement (push_signature x) (get_height b))
      (page-modify_agreement x (get_height b)) (get_fork b) fs

ledger-confirm_block :
    (e : Ethers) (b : Block) (x : Signature) (fs fs' : Forks)
    → confirm_block e b x fs ≡ ok fs'
    → ledger fs' ≡ ledger fs
unfolding confirm_block
ledger-confirm_block e b x fs fs' h = elim (Option-cases (get_agreement_by_block fs b)) [
  | inl missing ↦ absurd (ground arith)
  | inr (a, found) ↦ ground (arith, ledger-push_signature_at b x fs)
]

ledger-add_chain_block :
    (f t : ℕ) (p : Address) (ts : ℕ) (fs fs' : Forks)
    → add_chain_block f t p ts fs ≡ ok fs'
    → ledger fs' ≡ ledger fs
unfolding add_chain_block
ledger-add_chain_block f t p ts fs fs' h = ground (
  arith,
  map-modify_at_hidden page_of
      (push_chain_block (record { transaction_cnt = t; participant_adr = p; timestamp = ts }))
      (λ k. refl) f fs,
)

ledger-add_agreement :
    (i : ℕ) (a : Agreement) (fs : Forks)
    → ledger (add_agreement i a fs) ≡ modify_at (write (entry_of_agreement a)) i (ledger fs)
unfolding add_agreement
ledger-add_agreement i a fs =
    map-modify_at page_of (push_agreement a) (write (entry_of_agreement a)) (page-push_agreement a)
      i fs

new_fork-Grows :
    (hash : Bytes → Bytes) (g : Bytes) (addresses : List Address) (cnt ts : ℕ) (fs : Forks)
    → Grows hash (ledger fs) (ledger (new_fork g addresses cnt ts fs))
unfolding new_fork
new_fork-Grows hash g addresses cnt ts fs =
    let f : AgreementFork = record {
      fork_genesis_state_encoded = g;
      addresses_in_threshold = addresses;
      genesis_timestamp = ts;
      chain_blocks = [];
      agreements = [];
    } in
    elim (Bool-cases (length fs == cnt)) [
      | inl expected ↦ rw expected (rw (map-push page_of fs f) (opens g))
      | inr other ↦ rw other stays
    ]

-- A block at the next height of its fork is written at the end of the page.
add_block-Grows :
    (hash : Bytes → Bytes) (b : Block) (x : Signature) (state : Bytes) (fs fs' : Forks)
    → IsNext fs (get_fork b) (get_height b)
    → b.state_hash ≡ hash state
    → add_block b x state fs ≡ ok fs'
    → Grows hash (ledger fs) (ledger fs')
add_block-Grows hash b x state fs fs' at hs h =
    let (f, found, above, e) = add_block_ok b x state fs fs' h in
    let a = new_agreement b x state in
    rw e (
      rw (ledger-add_agreement (get_fork b) a fs) (
        writes (page_of f) (entry_of_agreement a) (get_elem?-map page_of fs (get_fork b) f found)
          (at f found ∙ sym (length-map entry_of_agreement f.agreements)) hs))

pub Change-Grows :
    (e : Ethers) {fs gs : Forks} → Change e fs gs → Grows e.keccak256 (ledger fs) (ledger gs)
Change-Grows e (opened g addresses cnt ts fs) = new_fork-Grows e.keccak256 g addresses cnt ts fs
Change-Grows e (added {fs} {gs} b x state at hs h) =
    add_block-Grows e.keccak256 b x state fs gs at hs h
Change-Grows e (confirmed {fs} {gs} b x h) = rw (ledger-confirm_block e b x fs gs h) stays
Change-Grows e (posted {fs} {gs} f t p ts h) = rw (ledger-add_chain_block f t p ts fs gs h) stays

-- Any sequence of changes of the forks is a history of the ledger.
pub Changes-History :
    (e : Ethers) {fs gs : Forks} → Changes e fs gs → History e.keccak256 (ledger fs) (ledger gs)
Changes-History e still = here
Changes-History e (also c x) = next (Changes-History e c) (Change-Grows e x)
