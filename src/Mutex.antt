-- ===== src/Mutex.antt =====
-- src/utils/Mutex.ts. A waiter is the call that waits for its promise to be resolved.
pub mod Exclusion
use state_channels_plus.Prelude.{
  Bool, true, false, Option, none, some, List, [], ◌∷◌, ◌++◌, if◌then◌else◌,
}

pub record Mutex (W : Type 0) : Type 0 where
  pub is_locked : Bool
  pub queue : List W

module _ {W : Type 0} where
  -- Whether the promise is resolved at once, and the mutex after the call.
  unfoldable pub lock : W → Mutex W → Bool × Mutex W
  lock w m =
      if m.is_locked
      then (false, record m { queue = m.queue ++ w ∷ [] })
      else (true, record m { is_locked = true })

  -- The waiter whose promise the call resolves, and the mutex after the call.
  unfoldable pub unlock : Mutex W → Option W × Mutex W
  unlock m = elim m.queue [
    | [] ↦ (none, record m { is_locked = false })
    | next ∷ rest ↦ (some next, record m { queue = rest })
  ]
