-- ===== src/Ledger/View.antt =====
-- The ledger of the forks of a peer, and how each change of the forks is seen in it.
use state_channels_plus.Prelude.{
  ℕ, zero, suc, ◌≡◌, refl, ap, List, [], ◌∷◌, ◌++◌, map, some, length, get_elem?, modify_at, arith,
  inl, inr, Option-cases,
}
use state_channels_plus.Data.{Signature}
use state_channels_plus.AgreementTypes.{Agreement, AgreementFork, Forks}
use state_channels_plus.Forks.{fork_at, get_agreement, push_agreement}
use state_channels_plus.Agreement.{push_signature, modify_agreement}
use state_channels_plus.Ledger.{Entry, Page, Ledger, write}
use state_channels_plus.Ledger.Prefix.{entry_at}

abbrev pub entry_of_agreement : Agreement → Entry
entry_of_agreement a = record { block = a.block; state = a.encoded_state }

abbrev pub page_of : AgreementFork → Page
page_of f = record {
  genesis = f.fork_genesis_state_encoded;
  entries = map entry_of_agreement f.agreements;
}

abbrev pub ledger : Forks → Ledger
ledger = map page_of

module _ {ℓ κ} {A : Type ℓ} {B : Type κ} (view : A → B) where
  pub get_elem?-map :
      (xs : List A) (i : ℕ) (x : A)
      → get_elem? xs i ≡ some x
      → get_elem? (map view xs) i ≡ some (view x)
  get_elem?-map [] i x h = ground arith
  get_elem?-map (y ∷ xs) zero x h = ground arith
  get_elem?-map (y ∷ xs) (suc i) x h = get_elem?-map xs i x h

  get_elem?-map_inv :
      (xs : List A) (i : ℕ) (y : B)
      → get_elem? (map view xs) i ≡ some y
      → (x : A) × (get_elem? xs i ≡ some x) × (view x ≡ y)
  get_elem?-map_inv [] i y h = absurd (ground arith)
  get_elem?-map_inv (x ∷ xs) zero y h = (x, refl, ground arith)
  get_elem?-map_inv (x ∷ xs) (suc i) y h = get_elem?-map_inv xs i y h

  pub length-map : (xs : List A) → length (map view xs) ≡ length xs
  length-map [] = refl
  length-map (x ∷ xs) = ap suc (length-map xs)

  pub map-push : (xs : List A) (x : A) → map view (xs ++ x ∷ []) ≡ map view xs ++ view x ∷ []
  map-push [] x = refl
  map-push (y ∷ xs) x = ap (λ l. view y ∷ l) (map-push xs x)

  -- A change of an element that the view does not show.
  pub map-modify_at_hidden :
      (f : A → A)
      → ((x : A) → view (f x) ≡ view x)
      → (i : ℕ) (xs : List A) → map view (modify_at f i xs) ≡ map view xs
  map-modify_at_hidden f h i [] = refl
  map-modify_at_hidden f h zero (x ∷ xs) = ap (λ y. y ∷ map view xs) (h x)
  map-modify_at_hidden f h (suc i) (x ∷ xs) = ap (λ l. view x ∷ l) (map-modify_at_hidden f h i xs)

  pub map-modify_at :
      (f : A → A) (g : B → B)
      → ((x : A) → view (f x) ≡ g (view x))
      → (i : ℕ) (xs : List A) → map view (modify_at f i xs) ≡ modify_at g i (map view xs)
  map-modify_at f g h i [] = refl
  map-modify_at f g h zero (x ∷ xs) = ap (λ y. y ∷ map view xs) (h x)
  map-modify_at f g h (suc i) (x ∷ xs) = ap (λ l. view x ∷ l) (map-modify_at f g h i xs)

pub page-push_agreement :
    (a : Agreement) (f : AgreementFork)
    → page_of (push_agreement a f) ≡ write (entry_of_agreement a) (page_of f)
page-push_agreement a f = ground (arith, map-push entry_of_agreement f.agreements a)

pub page-modify_agreement :
    (x : Signature) (h : ℕ) (f : AgreementFork)
    → page_of (modify_agreement (push_signature x) h f) ≡ page_of f
page-modify_agreement x h f =
    ground
      (arith, map-modify_at_hidden entry_of_agreement (push_signature x) (λ a. refl) h f.agreements)

-- The ledger holds the block and the state of each agreement.
pub entry_at-ledger :
    (fs : Forks) (i j : ℕ) (a : Agreement)
    → get_agreement fs i j ≡ some a
    → entry_at (ledger fs) i j ≡ some (entry_of_agreement a)
unfolding get_agreement entry_at
entry_at-ledger fs i j a h = elim (Option-cases (fork_at fs i)) [
  | inl missing ↦ absurd (ground arith)
  | inr (f, found) ↦
      ground (
        arith,
        get_elem?-map page_of fs i f found,
        get_elem?-map entry_of_agreement f.agreements j a,
      )
]

-- Conversely for the entries of the ledger.
pub agreement_of_entry :
    (fs : Forks) (i j : ℕ) (x : Entry)
    → entry_at (ledger fs) i j ≡ some x
    → (a : Agreement) × (get_agreement fs i j ≡ some a) × (entry_of_agreement a ≡ x)
unfolding get_agreement entry_at
agreement_of_entry fs i j x h = elim (Option-cases (fork_at fs i)) [
  | inl missing ↦ elim (Option-cases (get_elem? (ledger fs) i)) [
    | inl none_here ↦ absurd (ground arith)
    | inr (q, there) ↦
        let (f, found, e) = get_elem?-map_inv page_of fs i q there in absurd (ground arith)
  ]
  | inr (f, found) ↦
      let (a, stored, e) =
        get_elem?-map_inv entry_of_agreement f.agreements j x
          (ground (arith, get_elem?-map page_of fs i f found)) in
      (a, ground arith, e)
]
