-- ===== src/Retry/Attempts.antt =====
-- How often a retried function is called, and what comes of it.
use state_channels_plus.Prelude.{
  ℕ, zero, suc, ◌+◌, ◌≤◌, ◌≡◌, ◌⊎◌, refl, inl, inr, List, [], ◌∷◌, ◌++◌, Result, ap, ltb,
  Bool-cases, ok, throw, Error, Result-cases, arith,
}
use state_channels_plus.Prelude.Action.{Action}
use state_channels_plus.Retry.{RetryConfig, RetryEvent, on_retry, wait, prepare, retry_from, retry}

abbrev pub count_retries : List RetryEvent → ℕ
count_retries [] = 0
count_retries (on_retry n err ∷ events) = suc (count_retries events)
count_retries (wait n ∷ events) = count_retries events

module _ {S A : Type 0} (fn : Action S A) where
  -- So many calls in a row throw, and lead from the one state to the other.
  pub data Fails : ℕ → S → S → Type 0 where
    none_yet : {s : S} → Fails 0 s s
    once_more :
        {n : ℕ} {s t u : S} {err : Error} → fn s ≡ (throw err, t) → Fails n t u → Fails (suc n) s u

  module _ (config : RetryConfig) where
    -- The calls of a loop with so many retries left, from a state to what it ends with.
    pub record Attempts (left : ℕ) (s : S) (end : Result A × S × List RetryEvent) : Type 0 where
      pub retries : ℕ
      pub last : S
      pub bounded : retries ≤ left
      pub failed : Fails retries s last
      pub final : fn last ≡ (end.0, end.1)
      pub exhausted : ((a : A) × (end.0 ≡ ok a)) ⊎ (retries ≡ left)
      pub announced : count_retries end.2 ≡ retries

    count_retries-prepare :
        (attempt : ℕ) (err : Error) (events : List RetryEvent)
        → count_retries (prepare fn config attempt err ++ events) ≡ suc (count_retries events)
    count_retries-prepare attempt err events = elim (Bool-cases (ltb 0 config.delay_ms)) [
      | inl waits ↦ rw waits refl
      | inr none ↦ rw none refl
    ]

    retry_from-Attempts :
        (left attempt : ℕ) (s : S) → Attempts left s (retry_from fn config left attempt s)
    unfolding retry_from
    retry_from-Attempts zero attempt s = record {
      retries = 0;
      last = s;
      bounded = omega arith;
      failed = none_yet;
      final = refl;
      exhausted = inr refl;
      announced = refl;
    }
    retry_from-Attempts (suc left) attempt s =
        let p = fn s in
        let later = retry_from fn config left (attempt + 1) p.1 in
        elim (Result-cases p.0) [
          | inl (a, done) ↦
              let same : retry_from fn config (suc left) attempt s ≡ (ok a, p.1, []) =
                ground arith in
              rw same (record {
                retries = 0;
                last = s;
                bounded = omega arith;
                failed = none_yet;
                final = ground arith;
                exhausted = inl (a, refl);
                announced = refl;
              })
          | inr (err, thrown) ↦
              let k = retry_from-Attempts left (attempt + 1) p.1 in
              let same : retry_from fn config (suc left) attempt s
                  ≡ (later.0, later.1, prepare fn config attempt err ++ later.2) =
                ground arith in
              let fewer = k.bounded in
              rw same (record {
                retries = suc k.retries;
                last = k.last;
                bounded = omega arith;
                failed = once_more {err = err} (ground arith) k.failed;
                final = k.final;
                exhausted = elim k.exhausted [ inl done ↦ inl done | inr all ↦ inr (ap suc all) ];
                announced = ground (arith, count_retries-prepare attempt err later.2, k.announced);
              })
        ]

    -- `retry` calls the function at most `maxRetries + 1` times: some calls throw, at most `maxRetries`, one for
    -- each `onRetry`, and one more call gives the outcome of the whole; if that is a throw, there were exactly
    -- `maxRetries` before it.
    pub retry-Attempts : (s : S) → Attempts config.max_retries s (retry fn config s)
    unfolding retry
    retry-Attempts s = retry_from-Attempts config.max_retries 0 s
