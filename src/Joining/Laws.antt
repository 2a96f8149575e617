-- ===== src/Joining/Laws.antt =====
-- The collection of signatures, described by its lookups.
use state_channels_plus.Prelude.{
  ℕ, ◌≡◌, ◌≢◌, ◌↔◌, refl, zero, suc, inl, inr, true, false, Bool-cases, Option-cases, some, List,
  [], ◌∷◌, ◌++◌, get_elem?, get_elem?-push, ◌==◌, ==_refl, if◌then◌else◌, any, Elem, arith,
}
use state_channels_plus.Prelude.Dict.{lookup, lookup-insert}
use state_channels_plus.Data.{Address}
use state_channels_plus.Joining.Collection.{
  Collected, Collections, get, has_key, is_signer, try_insert, all_in, did_everyone_sign,
}

-- An array takes the first signature of each signer.
abbrev pub with_first : Collected → List Collected → List Collected
with_first c array = if is_signer c.signer_address array then array else array ++ c ∷ []

-- `tryInsert` appends the signature to the array of its key unless the array has one of the same signer,
-- and leaves the other keys alone.
pub get-try_insert :
    (j k : ℕ) (c : Collected) (m : Collections)
    → get j (try_insert k c m) ≡ (if j == k then with_first c (get k m) else get j m)
unfolding get try_insert has_key
get-try_insert j k c m = elim (Option-cases (lookup k m)) [
  | inl missing ↦
      ground (
        arith,
        lookup-insert j k (c ∷ []) m,
        lookup-insert k k (c ∷ []) m,
        ==_refl c.signer_address,
      )
  | inr (array, found) ↦ ground (arith, lookup-insert j k (array ++ c ∷ []) m)
]

is_signer_of_elem :
    (array : List Collected) (i : ℕ) (c : Collected)
    → get_elem? array i ≡ some c
    → is_signer c.signer_address array ≡ true
is_signer_of_elem [] i c h = ground arith
is_signer_of_elem (x ∷ array) zero c h = ground arith
is_signer_of_elem (x ∷ array) (suc i) c h = ground (arith, is_signer_of_elem array i c h)

signer-Elem :
    (p : Address) (array : List Collected)
    → is_signer p array ≡ true
    → (c : Collected) × Elem c array × (c.signer_address ≡ p)
signer-Elem p [] h = absurd (ground arith)
signer-Elem p (x ∷ array) h = elim (Bool-cases (x.signer_address == p)) [
  | inl same ↦ (x, (zero, refl), ground arith)
  | inr other ↦ let (c, (i, at), e) = signer-Elem p array (ground arith) in (c, (suc i, at), e)
]

all_in_elem :
    (ps : List Address) (array : List Collected) (i : ℕ) (p : Address)
    → all_in ps array ≡ true
    → get_elem? ps i ≡ some p
    → is_signer p array ≡ true
all_in_elem [] array i p h at = ground arith
all_in_elem (q ∷ ps) array zero p h at = ground arith
all_in_elem (q ∷ ps) array (suc i) p h at = all_in_elem ps array i p (ground arith) at

elem_all_in :
    (ps : List Address) (array : List Collected)
    → ((i : ℕ) (p : Address) → get_elem? ps i ≡ some p → is_signer p array ≡ true)
    → all_in ps array ≡ true
elem_all_in [] array h = refl
elem_all_in (q ∷ ps) array h =
    let rest = elem_all_in ps array (λ i. h (suc i)) in ground (arith, h zero q refl)

-- `didEveryoneSign` holds exactly when each of the participants has a signature in the array of the key.
pub did_everyone_sign_iff :
    (key : ℕ) (ps : List Address) (m : Collections)
    → (did_everyone_sign key ps m ≡ true)
      ↔ ((p : Address) → Elem p ps → (c : Collected) × Elem c (get key m) × (c.signer_address ≡ p))
unfolding did_everyone_sign
did_everyone_sign_iff key ps m = (
  λ h p (i, at). signer-Elem p (get key m) (all_in_elem ps (get key m) i p h at),
  λ h. elem_all_in ps (get key m) (λ i p at.
      let (c, (j, there), same) = h p (i, at) in
      ground (arith, is_signer_of_elem (get key m) j c there)),
)

-- No two signatures of an array have the same signer.
pub record IsDistinct (array : List Collected) : Type 0 where
  pub unique :
      (i j : ℕ) (c d : Collected)
      → get_elem? array i ≡ some c
      → get_elem? array j ≡ some d
      → c.signer_address ≡ d.signer_address
      → i ≡ j

with_first-IsDistinct :
    (c : Collected) (array : List Collected) → IsDistinct array → IsDistinct (with_first c array)
with_first-IsDistinct c array k = elim (Bool-cases (is_signer c.signer_address array)) [
  | inl there ↦ rw there k
  | inr new ↦ rw new (record {
    unique = λ i j x y hx hy same. ground (
      arith,
      get_elem?-push array c i,
      get_elem?-push array c j,
      k.unique i j x y,
      is_signer_of_elem array i x,
      is_signer_of_elem array j y,
    );
  })
]

-- If no array of the map has two signatures of one signer, then none has after `tryInsert`.
pub try_insert-IsDistinct :
    (k : ℕ) (c : Collected) (m : Collections)
    → ((j : ℕ) → IsDistinct (get j m))
    → (j : ℕ) → IsDistinct (get j (try_insert k c m))
try_insert-IsDistinct k c m h j = elim (Bool-cases (j == k)) [
  | inl same ↦ rw (get-try_insert j k c m, same) (with_first-IsDistinct c (get k m) (h k))
  | inr other ↦ rw (get-try_insert j k c m, other) (h j)
]

is_signer-push :
    (p : Address) (c : Collected) (array : List Collected)
    → c.signer_address ≢ p
    → is_signer p (array ++ c ∷ []) ≡ is_signer p array
is_signer-push p c [] other = ground arith
is_signer-push p c (x ∷ array) other = ground (arith, is_signer-push p c array other)

with_first_not_signer :
    (p : Address) (c : Collected) (array : List Collected)
    → c.signer_address ≢ p
    → is_signer p (with_first c array) ≡ is_signer p array
with_first_not_signer p c array other = ground (arith, is_signer-push p c array other)

-- Who has no signature in an array has none after another's has been inserted.
pub try_insert_not_signer :
    (p : Address) (j k : ℕ) (c : Collected) (m : Collections)
    → c.signer_address ≢ p
    → is_signer p (get j m) ≡ false
    → is_signer p (get k m) ≡ false
    → is_signer p (get j (try_insert k c m)) ≡ false
try_insert_not_signer p j k c m other hj hk = elim (Bool-cases (j == k)) [
  | inl same ↦ rw (get-try_insert j k c m, same, with_first_not_signer p c (get k m) other) hk
  | inr apart ↦ rw (get-try_insert j k c m, apart) hj
]

-- A participant without a signature stands in the way.
pub not_everyone :
    (p : Address) (ps : List Address) (array : List Collected)
    → any (λ q. q == p) ps ≡ true
    → is_signer p array ≡ false
    → all_in ps array ≡ false
not_everyone p [] array among missing = ground arith
not_everyone p (q ∷ ps) array among missing = elim (Bool-cases (q == p)) [
  | inl same ↦ let e : q ≡ p = ground arith in rw (e, missing) refl
  | inr other ↦ ground (arith, not_everyone p ps array)
]
