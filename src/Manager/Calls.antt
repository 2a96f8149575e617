-- ===== src/Manager/Calls.antt =====
-- The entry points of src/stateManager/StateManager.ts. A result `none` says that the promise of the
-- call is still pending: the call waits for the mutex.
use state_channels_plus.Prelude.{ℕ, not, Option, none, some, if◌then◌else◌, Result, ok, throw}
use state_channels_plus.Prelude.Action.{Action, raise, try_modify, ◌>>◌}
use state_channels_plus.Data.{
  Signature, Block, SignedBlock, ExecutionFlag, get_fork, retrieve_signer_address_block,
}
use state_channels_plus.Validator.{is_block_in_chain}
use state_channels_plus.Agreement.{
  confirm_block, is_participant_in_latest_fork, does_signature_exist,
}
use state_channels_plus.Mutex.{lock, unlock}
use state_channels_plus.Manager.State.{
  Env, Waiter, ManagerState, ValidationResult, succeeded, failed,
}
use state_channels_plus.Manager.Validation.{
  is_channel_open, is_past_fork, is_signed_block_authentic, validate_signed_block,
}
use state_channels_plus.Manager.Decisions.{
  on_forks, process_execution_decision, process_confirmation_decision,
}

abbrev pub release : {M : Type 0} → ManagerState M → ManagerState M
release s = record s { mutex = (unlock s.mutex).1 }

module _ {M : Type 0} (env : Env M) (now : ℕ) where
  -- The `finally` of `onSignedBlock`: a throw in it replaces the outcome, and skips the unlocking.
  abbrev pub finish_signed_block :
      SignedBlock → ValidationResult → Result ExecutionFlag → Action (ManagerState M) ExecutionFlag
  finish_signed_block signed v outcome s =
      let (decided, s') = process_execution_decision env signed v.flag v.agreement_flag s in
      elim decided [ throw err ↦ (throw err, s') | ok _ ↦ (outcome, release s') ]

  -- `onSignedBlock` once it has the mutex. A throw of the validation leaves the flag at its default.
  unfoldable pub run_signed_block : SignedBlock → Block → Action (ManagerState M) ExecutionFlag
  run_signed_block signed b s =
      let (validated, s') = validate_signed_block env now signed b s in
      elim validated [
        | ok v ↦ finish_signed_block signed v (ok v.flag) s'
        | throw err ↦ finish_signed_block signed succeeded (throw err) s'
      ]

  unfoldable pub on_signed_block :
      SignedBlock → Block → ManagerState M → Option (Result ExecutionFlag) × ManagerState M
  unfolding run_signed_block
  on_signed_block signed b s =
      let (acquired, m) = lock (Waiter.signed_block signed) s.mutex in
      let s1 : ManagerState M = record s { mutex = m } in
      if not acquired
      then (none, s1)
      else let (r, s2) = run_signed_block signed b s1 in (some r, s2)

  -- `validateBlockConfirmation` from the check of the confirmer on.
  unfoldable pub confirmation_tail : Block → Signature → ManagerState M → Result ValidationResult
  confirmation_tail b signature s = elim (retrieve_signer_address_block env.ethers b signature) [
    | throw err ↦ throw err
    | ok confirmer ↦
        if not (is_participant_in_latest_fork s.agreements.forks confirmer)
        then ok (failed ExecutionFlag.disconnect)
        else elim (does_signature_exist env.ethers b signature s.agreements.forks) [
          | throw err ↦ throw err
          | ok exists ↦ if exists then ok (failed ExecutionFlag.duplicate) else ok succeeded
        ]
  ]

  -- What `validateBlockConfirmation` makes of the flag of the nested `onSignedBlock`.
  abbrev pub after_nested :
      ExecutionFlag → Block → Signature → ManagerState M → Result ValidationResult
  after_nested ExecutionFlag.duplicate b signature s =
      if not (is_block_in_chain env.ethers s.agreements b)
      then ok (failed ExecutionFlag.not_ready)
      else confirmation_tail b signature s
  after_nested ExecutionFlag.success b signature s = confirmation_tail b signature s
  after_nested flag b signature s = ok (failed flag)

  unfoldable pub validate_confirmation :
      SignedBlock
      → Signature
      → Block
      → ManagerState M
      → Option (Result ValidationResult) × ManagerState M
  unfolding on_signed_block
  validate_confirmation signed signature b s =
      if not (is_channel_open s.agreements.forks)
      then (some (ok (failed ExecutionFlag.not_ready)), s)
      else elim (is_signed_block_authentic env now signed b s.channel_id) [
        | throw err ↦ (some (throw err), s)
        | ok authentic ↦
            if not authentic
            then (some (ok (failed ExecutionFlag.disconnect)), s)
            else if is_past_fork (get_fork b) s.agreements.forks
            then (some (ok (failed ExecutionFlag.past_fork)), s)
            else if is_block_in_chain env.ethers s.agreements b
            then (some (confirmation_tail b signature s), s)
            else let (nested, s') = on_signed_block signed b s in
              elim nested [
                | none ↦ (none, s')
                | some (throw err) ↦ (some (throw err), s')
                | some (ok flag) ↦ (some (after_nested flag b signature s'), s')
              ]
      ]

  -- The `if (result.success)` and the `finally` of `onBlockConfirmation`.
  unfoldable pub finish_confirmation :
      Block → Signature → Result ValidationResult → Action (ManagerState M) ExecutionFlag
  finish_confirmation b signature (throw err) s =
      (do process_confirmation_decision env ExecutionFlag.success; raise err) s
  finish_confirmation b signature (ok v) s =
      let (confirmed, s') =
        (if v.success
          then try_modify (on_forks env (confirm_block env.ethers b signature)) s
          else (ok tt, s)) in
      let (decided, s2) = process_confirmation_decision env v.flag s' in
      elim decided [
        | throw err ↦ (throw err, s2)
        | ok _ ↦ elim confirmed [ throw err ↦ (throw err, s2) | ok _ ↦ (ok v.flag, s2) ]
      ]

  unfoldable pub on_block_confirmation :
      SignedBlock
      → Signature
      → Block
      → ManagerState M
      → Option (Result ExecutionFlag) × ManagerState M
  unfolding validate_confirmation finish_confirmation
  on_block_confirmation signed signature b s =
      let (validated, s') = validate_confirmation signed signature b s in
      elim validated [
        | none ↦ (none, s')
        | some r ↦ let (outcome, s2) = finish_confirmation b signature r s' in (some outcome, s2)
      ]
