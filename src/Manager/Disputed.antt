-- ===== src/Manager/Disputed.antt =====
-- A fork that is disputed stays disputed, over each call.
pub mod Events
pub mod Tasks
use state_channels_plus.Prelude.{
  ℕ, ◌≡◌, ◌⊎◌, refl, inl, inr, true, none, some, List, [], ◌∷◌, Option, Result, ok, throw, arith,
  ◌==◌, Bool-cases, Result-cases, Option-cases,
}
use state_channels_plus.Prelude.Dict.{lookup-insert}
use state_channels_plus.Data.{
  Bytes, Address, Signature, Transaction, Block, SignedBlock, ExecutionFlag, AgreementFlag,
  decode_block,
}
use state_channels_plus.Forks.{get_latest_fork_cnt}
use state_channels_plus.Proofs.{
  Proof, Dispute, create_block_too_far_in_future_proof, create_double_sign_proof,
  create_incorrect_data_proof,
}
use state_channels_plus.Disputes.{
  DisputeState, set_fork_disputed, is_fork_disputed, add_proof, add_proofs, start_dispute,
}
use state_channels_plus.Mutex.{lock}
use state_channels_plus.Manager.State.{Env, Waiter, ManagerState, ValidationResult, succeeded}
use state_channels_plus.Manager.Validation.{
  is_enough_time_subjective, process_state_transition, validate_producer, validate_next,
  validate_past, validate_place, validate_signed_block,
}
use state_channels_plus.Manager.Decisions.{
  detached, with_fork_of, on_success_common, confirm_own, dispute_double_sign,
  dispute_incorrect_data, process_execution_decision, process_confirmation_decision,
}
use state_channels_plus.Manager.Calls.{
  finish_signed_block, run_signed_block, on_signed_block, validate_confirmation,
  finish_confirmation, on_block_confirmation,
}
use state_channels_plus.Manager.Entries.{validate_confirmation-state}

pub set_fork_disputed-is_fork_disputed :
    (f g : ℕ) (d : DisputeState)
    → is_fork_disputed f d ≡ true
    → is_fork_disputed f (set_fork_disputed g d) ≡ true
unfolding set_fork_disputed is_fork_disputed
set_fork_disputed-is_fork_disputed f g d h = ground (arith, lookup-insert f g true d.disputed_forks)

add_proofs-disputed_forks :
    (g : ℕ) (ps : List Proof) (d : DisputeState)
    → (add_proofs g ps d).disputed_forks ≡ d.disputed_forks
unfolding add_proofs add_proof
add_proofs-disputed_forks g [] d = refl
add_proofs-disputed_forks g (p ∷ ps) d = add_proofs-disputed_forks g ps (add_proof g p d)

pub start_dispute-is_fork_disputed :
    (f g : ℕ) (ps : List Proof) (d : DisputeState)
    → is_fork_disputed f d ≡ true
    → is_fork_disputed f (start_dispute g ps d) ≡ true
unfolding start_dispute is_fork_disputed
start_dispute-is_fork_disputed f g ps d h = ground (
  arith,
  add_proofs-disputed_forks g ps (set_fork_disputed g d),
  set_fork_disputed-is_fork_disputed f g d,
)

module _ {M : Type 0} (f : ℕ) where
  abbrev pub IsDisputed : ManagerState M → Type 0
  IsDisputed s = is_fork_disputed f s.disputes ≡ true

module _ {M : Type 0} (env : Env M) (now f : ℕ) where
  time-IsDisputed :
      (signed : SignedBlock) (b : Block) (s : ManagerState M)
      → IsDisputed f s
      → IsDisputed f (is_enough_time_subjective env now signed b s).1
  unfolding is_enough_time_subjective
  time-IsDisputed signed b s h = ground (
    arith,
    start_dispute-is_fork_disputed f (get_latest_fork_cnt s.agreements.forks)
        (create_block_too_far_in_future_proof env.ethers env.coder signed ∷ []) s.disputes,
  )

  transition-disputes :
      (b : Block) (signed : SignedBlock) (s : ManagerState M)
      → (process_state_transition env now b signed s).1.disputes ≡ s.disputes
  unfolding process_state_transition
  transition-disputes b signed s = ground arith

  validate_next-IsDisputed :
      (b : Block) (signed : SignedBlock) (s : ManagerState M)
      → IsDisputed f s
      → IsDisputed f (validate_next env now b signed s).1
  unfolding validate_next validate_producer
  validate_next-IsDisputed b signed s h =
      let t = is_enough_time_subjective env now signed b s in
      ground (arith, time-IsDisputed signed b s h, transition-disputes b signed t.1)

  validate_signed_block-IsDisputed :
      (signed : SignedBlock) (b : Block) (s : ManagerState M)
      → IsDisputed f s
      → IsDisputed f (validate_signed_block env now signed b s).1
  unfolding validate_signed_block validate_place validate_past
  validate_signed_block-IsDisputed signed b s h =
      ground (arith, validate_next-IsDisputed b signed s h)

  detached-IsDisputed :
      (r : Result (ℕ × Proof)) (s : ManagerState M)
      → IsDisputed f s
      → IsDisputed f (detached env r s).1
  detached-IsDisputed (ok (g, p)) s h = start_dispute-is_fork_disputed f g (p ∷ []) s.disputes h
  detached-IsDisputed (throw err) s h = h

  confirm_own-disputes :
      (signed : SignedBlock) (s : ManagerState M)
      → (confirm_own env signed s).1.disputes ≡ s.disputes
  unfolding confirm_own
  confirm_own-disputes signed s = ground arith

  success-disputes :
      (signed : SignedBlock) (af : Option AgreementFlag) (s : ManagerState M)
      → (process_execution_decision env signed ExecutionFlag.success af s).1.disputes ≡ s.disputes
  unfolding process_execution_decision on_success_common
  success-disputes signed af s = ground (arith, confirm_own-disputes signed s)

  decision-IsDisputed :
      (signed : SignedBlock) (flag : ExecutionFlag) (af : Option AgreementFlag) (s : ManagerState M)
      → IsDisputed f s
      → IsDisputed f (process_execution_decision env signed flag af s).1
  unfolding process_execution_decision dispute_double_sign dispute_incorrect_data
  decision-IsDisputed signed ExecutionFlag.success af s h = rw (success-disputes signed af s) h
  decision-IsDisputed signed ExecutionFlag.not_ready af s h = ground arith
  decision-IsDisputed signed ExecutionFlag.dispute none s h = h
  decision-IsDisputed signed ExecutionFlag.dispute (some AgreementFlag.double_sign) s h =
      detached-IsDisputed
        (with_fork_of env
          (create_double_sign_proof env.ethers env.coder s.agreements.forks (signed ∷ []))
          (decode_block env.ethers signed.encoded_block))
        s h
  decision-IsDisputed signed ExecutionFlag.dispute (some AgreementFlag.incorrect_data) s h =
      detached-IsDisputed
        (with_fork_of env
          (create_incorrect_data_proof env.ethers env.coder env.empty_state s.agreements.forks
            signed)
          (decode_block env.ethers signed.encoded_block))
        s h
  decision-IsDisputed signed ExecutionFlag.dispute (some _) s h = h
  decision-IsDisputed signed _ af s h = h

  finish_signed_block-IsDisputed :
      (signed : SignedBlock) (v : ValidationResult) (r : Result ExecutionFlag) (s : ManagerState M)
      → IsDisputed f s
      → IsDisputed f (finish_signed_block env now signed v r s).1
  finish_signed_block-IsDisputed signed v r s h =
      ground (arith, decision-IsDisputed signed v.flag v.agreement_flag s h)

  pub run_signed_block-IsDisputed :
      (signed : SignedBlock) (b : Block) (s : ManagerState M)
      → IsDisputed f s
      → IsDisputed f (run_signed_block env now signed b s).1
  unfolding run_signed_block
  run_signed_block-IsDisputed signed b s h =
      let v = validate_signed_block env now signed b s in
      let h' = validate_signed_block-IsDisputed signed b s h in
      elim (Result-cases v.0) [
        | inl (r, e) ↦ ground (arith, finish_signed_block-IsDisputed signed r (ok r.flag) v.1 h')
        | inr (err, e) ↦
            ground (arith, finish_signed_block-IsDisputed signed succeeded (throw err) v.1 h')
      ]

  pub on_signed_block-IsDisputed :
      (signed : SignedBlock) (b : Block) (s : ManagerState M)
      → IsDisputed f s
      → IsDisputed f (on_signed_block env now signed b s).1
  unfolding on_signed_block
  on_signed_block-IsDisputed signed b s h =
      let (acquired, m) = lock (Waiter.signed_block signed) s.mutex in
      let s1 : ManagerState M = record s { mutex = m } in
      ground (arith, run_signed_block-IsDisputed signed b s1 h)

  pub finish_confirmation-disputes :
      (b : Block) (x : Signature) (r : Result ValidationResult) (s : ManagerState M)
      → (finish_confirmation env now b x r s).1.disputes ≡ s.disputes
  unfolding finish_confirmation process_confirmation_decision
  finish_confirmation-disputes b x r s = ground arith

  pub on_block_confirmation-IsDisputed :
      (signed : SignedBlock) (x : Signature) (b : Block) (s : ManagerState M)
      → IsDisputed f s
      → IsDisputed f (on_block_confirmation env now signed x b s).1
  unfolding on_block_confirmation
  on_block_confirmation-IsDisputed signed x b s h =
      let v = validate_confirmation env now signed x b s in
      let nested = on_signed_block-IsDisputed signed b s h in
      let h' : IsDisputed f v.1 = elim (validate_confirmation-state env now signed x b s) [
        | inl same ↦ rw same h
        | inr e ↦ rw e nested
      ] in
      elim (Option-cases v.0) [
        | inl waits ↦ ground arith
        | inr (r, e) ↦ ground (arith, finish_confirmation-disputes b x r v.1)
      ]
