-- ===== src/Retry.antt =====
-- src/utils/retry.ts. The retried function acts on a state, and throws or returns.
pub mod Attempts
use state_channels_plus.Prelude.{
  ℕ, zero, suc, ◌+◌, ◌*◌, Bool, List, [], ◌∷◌, ◌++◌, ltb, if◌then◌else◌, Result, ok, throw, Error,
}
use state_channels_plus.Prelude.Action.{Action}

pub record RetryConfig : Type 0 where
  pub max_retries : ℕ
  pub delay_ms : ℕ
  pub use_exponential_backoff : Bool
  pub backoff_factor : ℕ

-- What a call does beside the calls of the function: `onRetry`, and the waits.
pub data RetryEvent : Type 0 where
  on_retry : ℕ → Error → RetryEvent
  wait : ℕ → RetryEvent

-- `Math.pow`
abbrev pub pow : ℕ → ℕ → ℕ
pow base zero = 1
pow base (suc n) = base * pow base n

module _ {S A : Type 0} (fn : Action S A) (config : RetryConfig) where
  unfoldable pub get_delay : ℕ → ℕ
  get_delay attempt =
      if config.use_exponential_backoff
      then config.delay_ms * pow config.backoff_factor attempt
      else config.delay_ms

  abbrev pub prepare : ℕ → Error → List RetryEvent
  prepare attempt err =
      on_retry (attempt + 1) err
      ∷ (if ltb 0 config.delay_ms then wait (get_delay attempt) ∷ [] else [])

  -- The loop with so many retries left.
  unfoldable pub retry_from : ℕ → ℕ → S → Result A × S × List RetryEvent
  unfolding get_delay
  retry_from zero attempt s = let (r, s') = fn s in (r, s', [])
  retry_from (suc left) attempt s =
      let (r, s') = fn s in
      elim r [
        | ok a ↦ (ok a, s', [])
        | throw err ↦
            let (last, t, events) = retry_from left (attempt + 1) s' in
            (last, t, prepare attempt err ++ events)
      ]

  unfoldable pub retry : S → Result A × S × List RetryEvent
  unfolding retry_from
  retry s = retry_from config.max_retries 0 s
