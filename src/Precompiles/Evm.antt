-- ===== src/Precompiles/Evm.antt =====
-- What both precompiles share: the EVM's side of a call, its log and storage, and the frame of `Run`,
-- which app/precompiles/entityregistry/entityregistry.go and app/precompiles/viewregistry/viewregistry.go
-- have line by line. The EVM and its helpers are code of other repositories.
use shinzohub.Prelude.{
  ℕ, zero, suc, ◌+◌, ◌-◌, ◌%◌, ◌^◌, Bytes, Bool, Option, none, some, List, [], ◌∷◌, ◌++◌, Result,
  ok, err, Exec, ltb, if◌then◌else◌,
}
use shinzohub.Sourcehub.State.{State, LibError, Error, M}

-- `vm.Log`: address, topics, data.
pub data Log : Type 0 where
  log : Bytes → List Bytes → Bytes → Log

-- The module's state, and the EVM's storage by address and slot, with its logs.
pub record World : Type 0 where
  pub module_state : State
  pub storage : Bytes → Bytes → Bytes
  pub logs : List Log

-- `vm.Contract`: its address and its caller, as bytes, and the value sent with the call.
pub record Contract : Type 0 where
  pub address : Bytes
  pub caller : Bytes
  pub value : ℕ

-- An unpacked argument of a method.
pub data Arg : Type 0 where
  bytes : Bytes → Arg
  uint8 : ℕ → Arg
  bytes32 : Bytes → Arg
  other : Arg

-- Hashing, packing and printing.
pub record EvmLib : Type 0 where
  pub keccak : Bytes → Bytes
  pub hash_hex : Bytes → Bytes
  pub bytes_to_hash : Bytes → Bytes
  pub left_pad_32 : Bytes → Bytes
  pub account_string : Bytes → Bytes
  pub base64 : Bytes → Bytes
  pub pack_entity : Bytes → Bytes → ℕ → Result LibError Bytes

pub data EvmError : Type 0 where
  invalid_argument : Bytes → EvmError
  missing_argument : ℕ → EvmError
  pack_failed : LibError → EvmError
  keeper : Error → EvmError
  unknown_method : Bytes → EvmError
  receives_funds : ℕ → EvmError
  setup_failed : LibError → EvmError
  reverted out_of_gas : EvmError
  revert_with : EvmError → EvmError

abbrev pub Call : Type 0 → Type 0
Call A = Exec World EvmError A

-- A call of the keeper runs on the module's state.
abbrev pub wrap_keeper : {A : Type 0} → World → Result Error A × State → Result EvmError A × World
wrap_keeper w (ok a, s) = (ok a, record w { module_state = s })
wrap_keeper w (err e, s) = (err (EvmError.keeper e), record w { module_state = s })

unfoldable pub on_module : {A : Type 0} → M A → Call A
on_module m w = wrap_keeper w (m w.module_state)

-- `args[i]`, which panics out of range.
unfoldable pub arg_at : List Arg → ℕ → Option Arg
arg_at [] i = none
arg_at (a ∷ args) zero = some a
arg_at (a ∷ args) (suc i) = arg_at args i

unfoldable pub add_log : Log → World → World
add_log l w = record w { logs = w.logs ++ l ∷ [] }

-- What `RunSetup` gives: the method's name and arguments, and the gas consumed so far.
pub record Setup : Type 0 where
  pub method : Bytes
  pub args : List Arg
  pub initial_gas : ℕ

-- The gas meter of the call: `RunSetup` is told which methods are transactions, `gas_consumed` is the
-- meter after the method, and `use_gas` says whether the contract can pay.
pub record Frame : Type 0 where
  pub run_setup : (Bytes → Bool) → Result LibError Setup
  pub gas_consumed : World → ℕ
  pub use_gas : ℕ → Bool

-- `cost := ctx.GasMeter().GasConsumed() - initialGas`, on `uint64`.
abbrev pub gas_cost : ℕ → ℕ → ℕ
gas_cost consumed initial = (consumed + 2 ^ 64 - initial) % 2 ^ 64

-- The end of `Run`, after the method. `wrap` is what the precompile makes of an error.
unfoldable pub finish :
    Frame
    → ℕ
    → (EvmError → EvmError)
    → Result EvmError Bytes × World
    → Result EvmError Bytes × World
finish f initial wrap (err e, w) = (err (wrap e), w)
finish f initial wrap (ok bz, w) =
    if f.use_gas (gas_cost (f.gas_consumed w) initial)
    then (ok bz, w)
    else (err EvmError.out_of_gas, w)

-- `Run`, but for the recovery from a gas meter that panics.
unfoldable pub run :
    Frame
    → Contract
    → (EvmError → EvmError)
    → (Bytes → Bool)
    → (Bytes → List Arg → Call Bytes)
    → Call Bytes
unfolding finish
run f contract wrap is_transaction handle_method w =
    if ltb 0 contract.value
    then (err (EvmError.receives_funds contract.value), w)
    else elim (f.run_setup is_transaction) [
      | err e ↦ (err (wrap (EvmError.setup_failed e)), w)
      | ok s ↦ finish f s.initial_gas wrap (handle_method s.method s.args w)
    ]
