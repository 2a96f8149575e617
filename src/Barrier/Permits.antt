-- ===== src/Barrier/Permits.antt =====
-- A barrier lets calls pass in the order in which they come, one for each permit.
use state_channels_plus.Prelude.{
  ℕ, zero, suc, ◌+◌, ◌≡◌, refl, ap, sym, ◌∙◌, Option, none, some, List, [], ◌∷◌, ◌++◌, length,
  length-append, append_assoc, append_nil, arith, subst, if◌then◌else◌, ◌⊎◌, inl, inr,
}
use state_channels_plus.Barrier.{BarrierLocal, create_new_instance, try_pass, allow_one}

-- The calls from all sides.
pub data BarrierCall (W : Type 0) : Type 0 where
  tries : W → BarrierCall W
  allows : BarrierCall W

-- The barrier, and the waiters that it has let pass, in order.
pub record Passage (W : Type 0) : Type 0 where
  pub barrier : BarrierLocal W
  pub passed : List W

module _ {W : Type 0} where
  abbrev resolve : Option W → List W → List W
  resolve none passed = passed
  resolve (some w) passed = passed ++ w ∷ []

  unfoldable pub on_call : BarrierCall W → Passage W → Passage W
  unfolding try_pass allow_one
  on_call (tries w) p =
      let (at_once, b) = try_pass w p.barrier in
      record { barrier = b; passed = if at_once then p.passed ++ w ∷ [] else p.passed }
  on_call allows p =
      let (next, b) = allow_one p.barrier in record { barrier = b; passed = resolve next p.passed }

  abbrev pub on_calls : List (BarrierCall W) → Passage W → Passage W
  on_calls [] p = p
  on_calls (c ∷ cs) p = on_calls cs (on_call c p)

  abbrev pub who : List (BarrierCall W) → List W
  who [] = []
  who (tries w ∷ cs) = w ∷ who cs
  who (allows ∷ cs) = who cs

  abbrev pub permits : List (BarrierCall W) → ℕ
  permits [] = 0
  permits (tries w ∷ cs) = permits cs
  permits (allows ∷ cs) = suc (permits cs)

  -- After the waiters `ws` and `n` permits: those who have passed and those who wait are the waiters in order; a permit is used or
  -- kept; and nobody waits while one is kept.
  pub record IsFair (ws : List W) (n : ℕ) (p : Passage W) : Type 0 where
    pub in_order : p.passed ++ p.barrier.queue ≡ ws
    pub one_each : length p.passed + p.barrier.count ≡ n
    pub no_waste : (p.barrier.count ≡ 0) ⊎ (p.barrier.queue ≡ [])

  abbrev passage : ℕ → List W → List W → Passage W
  passage count queue passed = record {
    barrier = record { count = count; queue = queue };
    passed = passed;
  }

  abbrev pub new_passage : Passage W
  new_passage = record { barrier = create_new_instance; passed = [] }

  tries-IsFair :
      (w : W) (ws : List W) (n count : ℕ) (queue passed : List W)
      → IsFair ws n (passage count queue passed)
      → IsFair (ws ++ w ∷ []) n (on_call (tries w) (passage count queue passed))
  unfolding on_call try_pass
  tries-IsFair w ws n zero queue passed f = record {
    in_order = sym (append_assoc passed queue (w ∷ [])) ∙ ap (λ l. l ++ w ∷ []) f.in_order;
    one_each = f.one_each;
    no_waste = inl refl;
  }
  tries-IsFair w ws n (suc count) [] passed f = record {
    in_order =
        append_nil (passed ++ w ∷ [])
        ∙ ap (λ l. l ++ w ∷ []) (sym (append_nil passed) ∙ f.in_order);
    one_each = let k = f.one_each in omega (arith, length-append passed (w ∷ []));
    no_waste = inr refl;
  }
  tries-IsFair w ws n (suc count) (next ∷ rest) passed f =
      let k = f.no_waste in absurd (ground arith)

  allows-IsFair :
      (ws : List W) (n count : ℕ) (queue passed : List W)
      → IsFair ws n (passage count queue passed)
      → IsFair ws (suc n) (on_call allows (passage count queue passed))
  unfolding on_call allow_one
  allows-IsFair ws n count [] passed f = record {
    in_order = f.in_order;
    one_each = let k = f.one_each in omega arith;
    no_waste = inr refl;
  }
  allows-IsFair ws n count (next ∷ rest) passed f = record {
    in_order = append_assoc passed (next ∷ []) rest ∙ f.in_order;
    one_each = let k = f.one_each in omega (arith, length-append passed (next ∷ []));
    no_waste = let k = f.no_waste in ground arith;
  }

  on_calls-IsFair_from :
      (cs : List (BarrierCall W)) (ws : List W) (n : ℕ) (p : Passage W)
      → IsFair ws n p
      → IsFair (ws ++ who cs) (n + permits cs) (on_calls cs p)
  on_calls-IsFair_from [] ws n p f = record {
    in_order = f.in_order ∙ sym (append_nil ws);
    one_each = let k = f.one_each in omega arith;
    no_waste = f.no_waste;
  }
  on_calls-IsFair_from (tries w ∷ cs) ws n p f =
      subst (λ l. IsFair l (n + permits cs) (on_calls cs (on_call (tries w) p)))
        (append_assoc ws (w ∷ []) (who cs))
        (on_calls-IsFair_from cs (ws ++ w ∷ []) n (on_call (tries w) p)
          (tries-IsFair w ws n p.barrier.count p.barrier.queue p.passed f))
  on_calls-IsFair_from (allows ∷ cs) ws n p f =
      let more : suc n + permits cs ≡ n + suc (permits cs) = omega arith in
      subst (λ m. IsFair (ws ++ who cs) m (on_calls cs (on_call allows p))) more
        (on_calls-IsFair_from cs ws (suc n) (on_call allows p)
          (allows-IsFair ws n p.barrier.count p.barrier.queue p.passed f))

  -- After any sequence of calls on a new barrier, those who have passed and those who wait are the ones that came, in
  -- their order; each permit has let one pass or is kept; and nobody waits while one is kept.
  pub on_calls-IsFair :
      (cs : List (BarrierCall W)) → IsFair (who cs) (permits cs) (on_calls cs (new_passage))
  on_calls-IsFair cs =
      let none_yet : 0 + permits cs ≡ permits cs = omega arith in
      subst (λ n. IsFair (who cs) n (on_calls cs (new_passage))) none_yet
        (on_calls-IsFair_from cs [] 0 (new_passage)
          (record { in_order = refl; one_each = refl; no_waste = inl refl }))
