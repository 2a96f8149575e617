-- ===== src/Prelude/Lists.antt =====
-- JavaScript arrays as lists, indexed by native numbers: a read out of range is `none`.
use Prim.Native.Nat.{ℕ, zero, suc, ◌+◌, ◌-◌, ◌<◌, ◌≤◌}
use mathlib.Core.Path.{◌≡◌, refl, ap}
use mathlib.Core.Bool.{Bool, true, false}
use mathlib.Core.Option
use mathlib.Core.Option.{Option, none, some}
use mathlib.Core.Logic.{inl, inr}
use mathlib.Core.List.{List, [], ◌∷◌, ◌++◌, reverse, reverse-cons}
use native.Mathlib.Omega.{arith}
use state_channels_plus.Prelude.Tests.{◌==◌, if◌then◌else◌, Bool-cases}

module _ {ℓ} {A : Type ℓ} where
  abbrev pub length : List A → ℕ
  length [] = 0
  length (x ∷ xs) = suc (length xs)

  abbrev pub get_elem? : List A → ℕ → Option A
  get_elem? [] i = none
  get_elem? (x ∷ xs) zero = some x
  get_elem? (x ∷ xs) (suc i) = get_elem? xs i

  -- `array.at(-1)`
  abbrev pub at_last : List A → Option A
  at_last xs = get_elem? xs (length xs - 1)

  -- `array[i].field = …` on an object that the array holds; out of range nothing changes.
  abbrev pub modify_at : (A → A) → ℕ → List A → List A
  modify_at f i [] = []
  modify_at f zero (x ∷ xs) = f x ∷ xs
  modify_at f (suc i) (x ∷ xs) = x ∷ modify_at f i xs

  pub length-modify_at : (f : A → A) (i : ℕ) (xs : List A) → length (modify_at f i xs) ≡ length xs
  length-modify_at f i [] = refl
  length-modify_at f zero (x ∷ xs) = refl
  length-modify_at f (suc i) (x ∷ xs) = ap suc (length-modify_at f i xs)

  pub append_assoc : (xs ys zs : List A) → (xs ++ ys) ++ zs ≡ xs ++ (ys ++ zs)
  append_assoc [] ys zs = refl
  append_assoc (x ∷ xs) ys zs = ap (λ l. x ∷ l) (append_assoc xs ys zs)

  pub append_nil : (xs : List A) → xs ++ [] ≡ xs
  append_nil [] = refl
  append_nil (x ∷ xs) = ap (λ l. x ∷ l) (append_nil xs)

  pub length-append : (xs ys : List A) → length (xs ++ ys) ≡ length xs + length ys
  length-append [] ys = omega arith
  length-append (x ∷ xs) ys = omega (arith, length-append xs ys)

  pub get_elem?-modify_at :
      (f : A → A) (i j : ℕ) (xs : List A)
      → get_elem? (modify_at f i xs) j
        ≡ (if i == j then Option.map f (get_elem? xs j) else get_elem? xs j)
  get_elem?-modify_at f i j [] = ground arith
  get_elem?-modify_at f zero zero (x ∷ xs) = ground arith
  get_elem?-modify_at f zero (suc j) (x ∷ xs) = ground arith
  get_elem?-modify_at f (suc i) zero (x ∷ xs) = ground arith
  get_elem?-modify_at f (suc i) (suc j) (x ∷ xs) = ground (arith, get_elem?-modify_at f i j xs)

  -- `array.push(x)`
  pub get_elem?-push :
      (xs : List A) (x : A) (i : ℕ)
      → get_elem? (xs ++ x ∷ []) i ≡ (if i == length xs then some x else get_elem? xs i)
  get_elem?-push [] x zero = ground arith
  get_elem?-push [] x (suc i) = ground arith
  get_elem?-push (y ∷ xs) x zero = ground arith
  get_elem?-push (y ∷ xs) x (suc i) = ground (arith, get_elem?-push xs x i)

  pub get_elem?_beyond : (xs : List A) (i : ℕ) → length xs ≤ i → get_elem? xs i ≡ none
  get_elem?_beyond [] i h = refl
  get_elem?_beyond (x ∷ xs) zero h = absurd (omega arith)
  get_elem?_beyond (x ∷ xs) (suc i) h = get_elem?_beyond xs i (omega arith)

  pub get_elem?_within : (xs : List A) (i : ℕ) → i < length xs → (x : A) × (get_elem? xs i ≡ some x)
  get_elem?_within [] i h = absurd (omega arith)
  get_elem?_within (x ∷ xs) zero h = (x, refl)
  get_elem?_within (x ∷ xs) (suc i) h = get_elem?_within xs i (omega arith)

  pub lt_of_get_elem? : (xs : List A) (i : ℕ) (x : A) → get_elem? xs i ≡ some x → i < length xs
  lt_of_get_elem? [] i x h = ground arith
  lt_of_get_elem? (y ∷ xs) zero x h = omega arith
  lt_of_get_elem? (y ∷ xs) (suc i) x h = omega (arith, lt_of_get_elem? xs i x h)

  -- `array.some(p)`
  abbrev pub any : (A → Bool) → List A → Bool
  any p [] = false
  any p (x ∷ xs) = if p x then true else any p xs

  -- Every element has the property.
  -- The element stands in the list: its position is known.
  abbrev pub Elem : A → List A → Type ℓ
  Elem a xs = (i : ℕ) × (get_elem? xs i ≡ some a)

  pub length-reverse : (xs : List A) → length (reverse xs) ≡ length xs
  length-reverse [] = refl
  length-reverse (x ∷ xs) =
      rw (reverse-cons x xs) (omega (arith, length-append (reverse xs) (x ∷ []), length-reverse xs))

  -- The element at a position from the end.
  pub get_elem?-reverse :
      (xs : List A) (i : ℕ) (x : A)
      → get_elem? (reverse xs) i ≡ some x
      → (j : ℕ) × (get_elem? xs j ≡ some x) × (i + j + 1 ≡ length xs)
  get_elem?-reverse [] i x h = absurd (ground arith)
  get_elem?-reverse (y ∷ xs) i x h =
      let h' : get_elem? (reverse xs ++ y ∷ []) i ≡ some x = rw (reverse-cons y xs) at h in
      elim (Bool-cases (i == length (reverse xs))) [
        | inl last ↦
            (0, ground (arith, get_elem?-push (reverse xs) y i), ground (arith, length-reverse xs))
        | inr before ↦
            let (j, at, e) =
              get_elem?-reverse xs i x (ground (arith, get_elem?-push (reverse xs) y i)) in
            (suc j, at, omega arith)
      ]
