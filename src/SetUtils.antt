-- ===== src/SetUtils.antt =====
-- src/utils/set.ts. A `Set` is a list without repetition, in insertion order. Addresses are
-- strings already, so the conversions by `String` are the identity.
pub mod Laws
use state_channels_plus.Prelude.{
  ℕ, Bool, true, false, not, List, [], ◌∷◌, ◌++◌, ◌==◌, if◌then◌else◌,
}

-- `set.has(x)`
abbrev pub has : List ℕ → ℕ → Bool
has [] x = false
has (y ∷ s) x = if y == x then true else has s x

-- `set.add(x)`
unfoldable pub add : List ℕ → ℕ → List ℕ
add s x = if has s x then s else s ++ x ∷ []

-- `set.delete(x)`
unfoldable pub delete : List ℕ → ℕ → List ℕ
delete [] x = []
delete (y ∷ s) x = if y == x then delete s x else y ∷ delete s x

-- The loop `for (const elem of set) result.add(elem)`, which `new Set(array)` makes too.
unfoldable pub add_all : List ℕ → List ℕ → List ℕ
add_all result [] = result
add_all result (x ∷ xs) = add_all (add result x) xs

unfoldable pub from_array : List ℕ → List ℕ
from_array xs = add_all [] xs

unfoldable pub union : List ℕ → List ℕ → List ℕ
union a b = add_all (from_array a) b

-- The loop of `intersection`, over the elements of the first set.
unfoldable pub intersect_from : List ℕ → List ℕ → List ℕ → List ℕ
intersect_from result [] b = result
intersect_from result (x ∷ xs) b = intersect_from (if has b x then add result x else result) xs b

unfoldable pub intersection : List ℕ → List ℕ → List ℕ
intersection a b = intersect_from [] a b

abbrev pub is_empty : List ℕ → Bool
is_empty [] = true
is_empty (_ ∷ _) = false

-- The loop of `difference`, with its early return once nothing is left.
unfoldable pub delete_all : List ℕ → List ℕ → List ℕ
delete_all result [] = result
delete_all result (x ∷ xs) =
    let smaller = delete result x in
    let rest = delete_all smaller xs in if is_empty smaller then smaller else rest

unfoldable pub difference : List ℕ → List ℕ → List ℕ
difference a b = delete_all (from_array a) b

unfoldable pub symmetric_difference : List ℕ → List ℕ → List ℕ
symmetric_difference a b = difference (union a b) (intersection a b)

unfoldable pub is_subset : List ℕ → List ℕ → Bool
is_subset [] b = true
is_subset (x ∷ xs) b = if not (has b x) then false else is_subset xs b

unfoldable pub is_superset : List ℕ → List ℕ → Bool
is_superset a b = is_subset b a

unfoldable pub exclude_from_array : List ℕ → List ℕ → List ℕ
exclude_from_array [] excluded = []
exclude_from_array (x ∷ xs) excluded =
    if not (has excluded x)
    then x ∷ exclude_from_array xs excluded
    else exclude_from_array xs excluded
