-- ===== src/Prelude/Action.antt =====
-- A method call on a mutable object: the state comes back after a throw too, since what was
-- written stays written.
use state_channels_plus.Prelude.Results.{Result, ok, throw, Error}

abbrev pub Action : Type 0 → Type 0 → Type 0
Action S A = S → Result A × S

abbrev pub pure : {S A : Type 0} → A → Action S A
pure a s = (ok a, s)

abbrev pub raise : {S A : Type 0} → Error → Action S A
raise e s = (throw e, s)

abbrev pub gets : {S A : Type 0} → (S → A) → Action S A
gets f s = (ok (f s), s)

-- A method that only reads, and may throw.
abbrev pub reads : {S A : Type 0} → (S → Result A) → Action S A
reads f s = (f s, s)

abbrev pub modify : {S : Type 0} → (S → S) → Action S (Unit {0})
modify f s = (ok tt, f s)

-- A method whose every throw comes before its first write.
abbrev pub try_modify : {S : Type 0} → (S → Result S) → Action S (Unit {0})
try_modify f s = elim (f s) [ ok s' ↦ (ok tt, s') | throw e ↦ (throw e, s) ]

infixl 5 ◌>>=◌ ◌>>◌
abbrev pub ◌>>=◌ : {S A B : Type 0} → Action S A → (A → Action S B) → Action S B
◌>>=◌ m f s = let (r, s') = m s in elim r [ ok a ↦ f a s' | throw e ↦ (throw e, s') ]

abbrev pub ◌>>◌ : {S A B : Type 0} → Action S A → Action S B → Action S B
m >> k = m >>= λ _. k
