-- ===== src/Joining/Collection.antt =====
-- src/utils/SignatureCollectionMap.ts: signatures by key, at most one of each signer.
use state_channels_plus.Prelude.{
  ℕ, Bool, true, false, Option, none, some, List, [], ◌∷◌, ◌++◌, ◌==◌, if◌then◌else◌, any, is_some,
  length, map,
}
use state_channels_plus.Prelude.Dict.{Dict, lookup, insert, erase, values as dict_values}
use state_channels_plus.Data.{Address, Signature}

-- `SignerAndSignature`
pub record Collected : Type 0 where
  pub signer_address : Address
  pub signature : Signature

abbrev pub Collections : Type 0
Collections = Dict (List Collected)

abbrev pub array_of : Option (List Collected) → List Collected
array_of none = []
array_of (some array) = array

unfoldable pub get : ℕ → Collections → List Collected
get key m = array_of (lookup key m)

unfoldable pub has_key : ℕ → Collections → Bool
has_key key m = is_some (lookup key m)

abbrev pub is_signer : Address → List Collected → Bool
is_signer p array = any (λ c. c.signer_address == p) array

-- The array of a new key holds the value, so that the loop returns.
unfoldable pub try_insert : ℕ → Collected → Collections → Collections
unfolding get has_key
try_insert key value m =
    let m1 = (if has_key key m then m else insert key (value ∷ []) m) in
    if is_signer value.signer_address (get key m1)
    then m1
    else insert key (get key m1 ++ value ∷ []) m1

abbrev pub all_in : List Address → List Collected → Bool
all_in [] array = true
all_in (p ∷ ps) array = if is_signer p array then all_in ps array else false

unfoldable pub did_everyone_sign : ℕ → List Address → Collections → Bool
unfolding get
did_everyone_sign key participants m = all_in participants (get key m)

-- `delete`, and `remove`, which drops its answer.
unfoldable pub delete : ℕ → Collections → Bool × Collections
unfolding has_key
delete key m = (has_key key m, erase key m)

unfoldable pub clear : Collections → Collections
clear m = []

unfoldable pub size : Collections → ℕ
size m = length m

unfoldable pub keys : Collections → List ℕ
keys m = map (λ entry. entry.0) m

unfoldable pub values : Collections → List (List Collected)
values m = dict_values m

unfoldable pub entries : Collections → List (ℕ × List Collected)
entries m = m
