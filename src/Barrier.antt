-- ===== src/Barrier.antt =====
-- src/utils/BarrierLocal.ts. A waiter is the call that waits for its promise to be resolved.
pub mod Permits
use state_channels_plus.Prelude.{
  ℕ, zero, suc, ◌+◌, Bool, true, false, Option, none, some, List, [], ◌∷◌, ◌++◌,
}

pub record BarrierLocal (W : Type 0) : Type 0 where
  pub count : ℕ
  pub queue : List W

abbrev pub create_new_instance : {W : Type 0} → BarrierLocal W
create_new_instance = record { count = 0; queue = [] }

module _ {W : Type 0} where
  -- Whether the promise is resolved at once, and the barrier after the call.
  unfoldable pub try_pass : W → BarrierLocal W → Bool × BarrierLocal W
  try_pass w b = elim b.count [
    | zero ↦ (false, record b { queue = b.queue ++ w ∷ [] })
    | suc n ↦ (true, record b { count = n })
  ]

  -- The waiter whose promise the call resolves, and the barrier after the call.
  unfoldable pub allow_one : BarrierLocal W → Option W × BarrierLocal W
  allow_one b = elim b.queue [
    | [] ↦ (none, record b { count = suc (b.count) })
    | next ∷ rest ↦ (some next, record b { queue = rest })
  ]
