-- ===== src/Manager/Disputed/Events.antt =====
-- A fork that is disputed stays disputed: events of the chain, own blocks and timeouts.
use state_channels_plus.Prelude.{
  ℕ, ◌≡◌, refl, inl, inr, List, [], ◌∷◌, Result, ok, throw, arith, Bool-cases, Result-cases,
}
use state_channels_plus.Data.{
  Bytes, Address, Transaction, Block, SignedBlock, AgreementFlag, get_fork, decode_block,
}
use state_channels_plus.Agreement.{collect_on_chain_block as collect_block}
use state_channels_plus.Proofs.{
  Proof, Dispute, to_number, create_double_sign_proof, create_incorrect_data_proof,
}
use state_channels_plus.Disputes.{
  HandlerState, set_fork_disputed, update_dispute_if_newer, extract_proofs,
}
use state_channels_plus.Disputes.Rechallenge.{extract_proofs-handler, update-disputed_forks}
use state_channels_plus.Mutex.{lock}
use state_channels_plus.Manager.State.{Env, Waiter, ManagerState}
use state_channels_plus.Manager.Decisions.{on_success_common}
use state_channels_plus.Manager.Author.{
  answer_flag, collect_on_chain_block, set_state, author_block, adjust_timestamp, play_body,
  play_transaction, try_timeout_participant,
}
use state_channels_plus.Manager.Tasks.{answer_with, begin_answer, on_dispute_update}
use state_channels_plus.Manager.Disputed.{IsDisputed, start_dispute-is_fork_disputed}

module _ {M : Type 0} (env : Env M) (now f : ℕ) where
  pub set_state-disputes :
      (encoded : Bytes) (cnt ts : ℕ) (s : ManagerState M)
      → (set_state env now encoded cnt ts s).1.disputes ≡ s.disputes
  unfolding set_state on_success_common
  set_state-disputes encoded cnt ts s = ground arith

  answer_flag-IsDisputed :
      (signed : SignedBlock) (flag : AgreementFlag) (b : Block) (s : ManagerState M)
      → IsDisputed f s
      → IsDisputed f (answer_flag env now signed flag b s).1
  answer_flag-IsDisputed signed AgreementFlag.double_sign b s h =
      elim (Result-cases
        (create_double_sign_proof env.ethers env.coder s.agreements.forks (signed ∷ []))) [
          | inr (err, thrown) ↦ ground arith
          | inl (p, made) ↦
              ground (arith, start_dispute-is_fork_disputed f (get_fork b) (p ∷ []) s.disputes)
        ]
  answer_flag-IsDisputed signed AgreementFlag.incorrect_data b s h =
      elim (Result-cases (
        create_incorrect_data_proof env.ethers env.coder env.empty_state s.agreements.forks
          signed)) [
            | inr (err, thrown) ↦ ground arith
            | inl (p, made) ↦
                ground (arith, start_dispute-is_fork_disputed f (get_fork b) (p ∷ []) s.disputes)
          ]
  answer_flag-IsDisputed signed _ b s h = h

  pub collect_on_chain_block-IsDisputed :
      (signed : SignedBlock) (ts : ℕ) (s : ManagerState M)
      → IsDisputed f s
      → IsDisputed f (collect_on_chain_block env now signed ts s).1
  unfolding collect_on_chain_block on_success_common
  collect_on_chain_block-IsDisputed signed ts s h =
      let (r, a) = collect_block env.ethers signed ts s.agreements in
      let s1 : ManagerState M = record s { agreements = a } in
      elim (Result-cases r) [
        | inr (err, thrown) ↦ ground arith
        | inl (flag, said) ↦ elim (Result-cases (decode_block env.ethers signed.encoded_block)) [
          | inr (err, thrown) ↦ ground arith
          | inl (b, decoded) ↦ ground (arith, answer_flag-IsDisputed signed flag b s1 h)
        ]
      ]

  author_block-disputes :
      (tx : Transaction) (s : ManagerState M) → (author_block env now tx s).1.disputes ≡ s.disputes
  unfolding author_block on_success_common
  author_block-disputes tx s = ground arith

  pub play_body-disputes :
      (tx : Transaction) (s : ManagerState M) → (play_body env now tx s).1.disputes ≡ s.disputes
  unfolding play_body
  play_body-disputes tx s = elim (Result-cases (adjust_timestamp env now tx s)) [
    | inr (err, thrown) ↦ ground arith
    | inl (tx', adjusted) ↦ ground (arith, author_block-disputes tx' s)
  ]

  pub play_transaction-disputes :
      (tx : Transaction) (s : ManagerState M)
      → (play_transaction env now tx s).1.disputes ≡ s.disputes
  unfolding play_transaction
  play_transaction-disputes tx s =
      let s1 : ManagerState M = record s { mutex = (lock (Waiter.played tx) s.mutex).1 } in
      ground (arith, play_body-disputes tx s1)

  pub try_timeout-IsDisputed :
      (cnt tx_cnt : ℕ) (p : Address) (s : ManagerState M)
      → IsDisputed f s
      → IsDisputed f (try_timeout_participant env now cnt tx_cnt p s).1
  unfolding try_timeout_participant
  try_timeout-IsDisputed cnt tx_cnt p s h =
      ground (arith, start_dispute-is_fork_disputed f cnt [] s.disputes h)

  answer_with-disputes :
      (dispute : Dispute) (r : Result (List Proof)) (s : ManagerState M)
      → (answer_with env now dispute r s).1.disputes ≡ s.disputes
  answer_with-disputes dispute (throw err) s = refl
  answer_with-disputes dispute (ok []) s = refl
  answer_with-disputes dispute (ok (p ∷ ps)) s = refl

  -- Taking note of a dispute changes the marks of the forks by its own mark alone.
  pub on_dispute_update_marks :
      (dispute : Dispute) (s : ManagerState M)
      → (on_dispute_update env now dispute s).1.disputes.disputed_forks
        ≡ (set_fork_disputed (to_number dispute.fork_cnt) s.disputes).disputed_forks
  unfolding on_dispute_update begin_answer
  on_dispute_update_marks dispute s =
      let d0 = set_fork_disputed (to_number dispute.fork_cnt) s.disputes in
      let (newer, d) = update_dispute_if_newer dispute d0 in
      let h : HandlerState (Unit {0}) = record {
        handler = d;
        forks = s.agreements.forks;
        chain = tt;
      } in
      let (r, h') = extract_proofs env.ethers env.coder now dispute h in
      elim (Bool-cases newer) [
        | inr older ↦ rw older (update-disputed_forks dispute d0)
        | inl first ↦ ground (
          arith,
          answer_with-disputes dispute r (record s { disputes = h'.handler }),
          (extract_proofs-handler env.ethers env.coder now dispute h).0,
          update-disputed_forks dispute d0,
        )
      ]
