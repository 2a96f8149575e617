-- ===== src/SetUtils/Laws.antt =====
-- Membership in the results of the set operations, and which of them are sets.
use state_channels_plus.Prelude.{
  ℕ, ◌≡◌, refl, inl, inr, true, false, not, ◌&&◌, ◌||◌, List, [], ◌∷◌, ◌++◌, ◌==◌, arith,
  Bool-cases,
}
use state_channels_plus.SetUtils.{
  has, add, delete, add_all, from_array, union, intersect_from, intersection, is_empty, delete_all,
  difference, symmetric_difference, is_subset, exclude_from_array,
}

pub has-append : (x : ℕ) (s : List ℕ) (t : List ℕ) → has (s ++ t) x ≡ (has s x || has t x)
has-append x [] t = refl
has-append x (y ∷ s) t = ground (arith, has-append x s t)

pub has-add : (s : List ℕ) (y x : ℕ) → has (add s y) x ≡ (has s x || (y == x))
unfolding add
has-add s y x = ground (arith, has-append x s (y ∷ []))

pub has-delete : (s : List ℕ) (y x : ℕ) → has (delete s y) x ≡ (has s x && not (y == x))
unfolding delete
has-delete [] y x = refl
has-delete (z ∷ s) y x = ground (arith, has-delete s y x)

pub has-add_all : (r xs : List ℕ) (x : ℕ) → has (add_all r xs) x ≡ (has r x || has xs x)
unfolding add_all
has-add_all r [] x = ground arith
has-add_all r (y ∷ xs) x = ground (arith, has-add_all (add r y) xs x, has-add r y x)

pub has-from_array : (xs : List ℕ) (x : ℕ) → has (from_array xs) x ≡ has xs x
unfolding from_array
has-from_array xs x = has-add_all [] xs x

pub has-union : (a b : List ℕ) (x : ℕ) → has (union a b) x ≡ (has a x || has b x)
unfolding union
has-union a b x = ground (arith, has-add_all (from_array a) b x, has-from_array a x)

has-intersect_from :
    (r xs b : List ℕ) (x : ℕ) → has (intersect_from r xs b) x ≡ (has r x || (has xs x && has b x))
unfolding intersect_from
has-intersect_from r [] b x = ground arith
has-intersect_from r (y ∷ xs) b x = elim (Bool-cases (has b y)) [
  | inl both ↦ rw both (ground (arith, has-intersect_from (add r y) xs b x, has-add r y x))
  | inr one ↦ rw one (ground (arith, has-intersect_from r xs b x))
]

pub has-intersection : (a b : List ℕ) (x : ℕ) → has (intersection a b) x ≡ (has a x && has b x)
unfolding intersection
has-intersection a b x = has-intersect_from [] a b x

pub has-is_empty : (s : List ℕ) (x : ℕ) → is_empty s ≡ true → has s x ≡ false
has-is_empty [] x h = refl
has-is_empty (y ∷ s) x h = ground arith

pub has-delete_all : (r xs : List ℕ) (x : ℕ) → has (delete_all r xs) x ≡ (has r x && not (has xs x))
unfolding delete_all
has-delete_all r [] x = ground arith
has-delete_all r (y ∷ xs) x =
    ground (arith, has-delete_all (delete r y) xs x, has-delete r y x, has-is_empty (delete r y) x)

pub has-difference : (a b : List ℕ) (x : ℕ) → has (difference a b) x ≡ (has a x && not (has b x))
unfolding difference
has-difference a b x = ground (arith, has-delete_all (from_array a) b x, has-from_array a x)

-- A value is in the symmetric difference of two sets exactly when it is in one of them and not in
-- both.
pub has-symmetric_difference :
    (a b : List ℕ) (x : ℕ)
    → has (symmetric_difference a b) x ≡ ((has a x || has b x) && not (has a x && has b x))
unfolding symmetric_difference
has-symmetric_difference a b x = ground (
  arith,
  has-difference (union a b) (intersection a b) x,
  has-union a b x,
  has-intersection a b x,
)

pub is_subset→has : (a b : List ℕ) (x : ℕ) → is_subset a b ≡ true → has a x ≡ true → has b x ≡ true
unfolding is_subset
is_subset→has [] b x h p = ground arith
is_subset→has (y ∷ a) b x h p = ground (arith, is_subset→has a b x)

pub has→is_subset :
    (a b : List ℕ) → ((x : ℕ) → has a x ≡ true → has b x ≡ true) → is_subset a b ≡ true
unfolding is_subset
has→is_subset [] b h = refl
has→is_subset (y ∷ a) b h = ground (arith, h y, has→is_subset a b (λ x p. h x (ground arith)))

-- `excludeFromArray` keeps exactly those values of the array that are not among the excluded ones.
pub has-exclude_from_array :
    (xs excluded : List ℕ) (x : ℕ)
    → has (exclude_from_array xs excluded) x ≡ (has xs x && not (has excluded x))
unfolding exclude_from_array
has-exclude_from_array [] excluded x = refl
has-exclude_from_array (y ∷ xs) excluded x = ground (arith, has-exclude_from_array xs excluded x)
