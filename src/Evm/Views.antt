-- ===== src/Evm/Views.antt =====
-- The contract as a state machine: its views leave no trace, and a transition that reverts leaves none.
use state_channels_plus.Prelude.{
  ◌≡◌, refl, inl, inr, true, false, Option, some, ok, arith, Bool-cases,
}
use state_channels_plus.Data.{Bytes, Transaction}
use state_channels_plus.Evm.{ContractCall, ContractInterface, execute_call, transition, read_call}

module _ {V : Type 0} (evm : ContractInterface V) where
  -- A `view` function of the contract: its call succeeds, returns what decodes, and changes nothing.
  pub record IsView {A : Type 0} (call : ContractCall) (decode : Bytes → Option A) : Type 0 where
    pub succeeds :
        (v : V) → (evm.run_call (evm.encode_function_data call) v).0.exception_error ≡ false
    pub decodes :
        (v : V)
        → (a : A) × (decode (evm.run_call (evm.encode_function_data call) v).0.return_value
            ≡ some a)
    pub pure : (v : V) → (evm.run_call (evm.encode_function_data call) v).1 ≡ v

  -- The EVM undoes the changes of a call that ends with an exception.
  pub record IsReverting : Type 0 where
    pub reverts :
        (calldata : Bytes) (v : V)
        → (evm.run_call calldata v).0.exception_error ≡ true
        → (evm.run_call calldata v).1 ≡ v

  execute_call-IsView :
      {A : Type 0} (call : ContractCall) (decode : Bytes → Option A) (v : V)
      → IsView call decode
      → execute_call evm (evm.encode_function_data call) v
        ≡ (ok (evm.run_call (evm.encode_function_data call) v).0, v)
  unfolding execute_call
  execute_call-IsView call decode v k = rw (k.succeeds v, k.pure v) refl

  -- A read of a view returns what decodes, and leaves the EVM as it was.
  pub read_call-IsView :
      {A : Type 0} (call : ContractCall) (decode : Bytes → Option A) (v : V)
      → IsView call decode
      → (a : A) × (read_call evm call decode v ≡ (ok a, v))
  unfolding read_call
  read_call-IsView call decode v k =
      let (a, decoded) = k.decodes v in (a, ground (arith, execute_call-IsView call decode v k))

  -- Where the EVM undoes a call that fails, a transition that fails leaves it as it was.
  pub transition-IsReverting :
      (tx : Transaction) (v : V)
      → IsReverting
      → (transition evm tx v).0.0 ≡ false
      → (transition evm tx v).1 ≡ v
  unfolding transition execute_call
  transition-IsReverting tx v k h =
      let calldata = evm.encode_function_data (ContractCall.state_transition tx) in
      elim (Bool-cases (evm.run_call calldata v).0.exception_error) [
        | inl failed ↦ ground (arith, k.reverts calldata v failed)
        | inr done ↦ absurd (ground arith)
      ]
