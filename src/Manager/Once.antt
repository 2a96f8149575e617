-- ===== src/Manager/Once.antt =====
-- A block gets a SUCCESS once: the gossip of a block ends at a peer that has it.
use state_channels_plus.Prelude.{ℕ, ◌≡◌, ◌≢◌, some, ok, arith}
use state_channels_plus.Data.{Block, SignedBlock, ExecutionFlag, decode_block, get_fork, get_height}
use state_channels_plus.Forks.{get_agreement_by_block}
use state_channels_plus.Manager.State.{Env, ManagerState}
use state_channels_plus.Manager.Calls.{on_signed_block}
use state_channels_plus.Manager.Invariant.{IsValid, on_signed_block-IsValid}
use state_channels_plus.Manager.Success.{confirmed_agreement, on_signed_block-success}
use state_channels_plus.Manager.Reach.{Reach, Reach-IsValid, get_agreement_append_only}

module _ {M : Type 0} (env : Env M) where
  -- If `onSignedBlock` has answered SUCCESS on an encoded block, with valid agreements before, then after any
  -- sequence of calls it does not answer SUCCESS on an encoded block of the same fork and height, be it the
  -- same block or another.
  pub on_signed_block_once :
      (now later : ℕ) (signed signed' : SignedBlock) (b b' : Block) (s s' t : ManagerState M)
      → IsValid env s
      → decode_block env.ethers signed.encoded_block ≡ ok b
      → decode_block env.ethers signed'.encoded_block ≡ ok b'
      → get_fork b' ≡ get_fork b
      → get_height b' ≡ get_height b
      → on_signed_block env now signed b s ≡ (some (ok ExecutionFlag.success), s')
      → Reach env s' t
      → (on_signed_block env later signed' b' t).0 ≢ some (ok ExecutionFlag.success)
  unfolding get_agreement_by_block
  on_signed_block_once now later signed signed' b b' s s' t k hd hd' hf hh h r again =
      let (free, authentic, fresh, turn, made, before, after, stored, older) =
        on_signed_block-success env now signed b s s' k hd h in
      let same : s' ≡ (on_signed_block env now signed b s).1 = ground arith in
      let k' : IsValid env s' = rw same (on_signed_block-IsValid env now signed b s k) in
      let (a, found, same_block, same_state) =
        get_agreement_append_only env (get_fork b) (get_height b)
          (confirmed_agreement env now signed b s') r stored in
      let u = (on_signed_block env later signed' b' t).1 in
      let (free', authentic', fresh', turn', made', before', after', stored', older') =
        on_signed_block-success env later signed' b' t u (Reach-IsValid env r k') hd'
          (ground arith) in
      absurd (ground arith)
