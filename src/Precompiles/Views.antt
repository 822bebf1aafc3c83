-- ===== src/Precompiles/Views.antt =====
-- The ViewRegistry precompile: app/precompiles/viewregistry/methods.go and viewregistry.go.
pub mod Register
use shinzohub.Prelude.{
  ℕ, Bytes, Bool, true, false, Option, none, some, List, [], ◌∷◌, ◌++◌, Result, ok, err, map_err,
  pure, fail, lift, gets, modify, ◌>>=◌, ◌>>◌, codes, same, ◌&&◌, if◌then◌else◌,
}
use shinzohub.Sourcehub.State.{State, Env, LibError, event}
use shinzohub.Sourcehub.Registration.{register_object}
use shinzohub.Sourcehub.Server.{emit}
use shinzohub.Precompiles.Evm.{
  Log, log, World, Contract, Arg, bytes, uint8, bytes32, other, EvmLib, EvmError, Call, on_module,
  arg_at, add_log, Frame, run,
}
use shinzohub.Precompiles.Sdl.{Match, find_type}

-- A view bundle: the schema text of its header, and what the code does not look at.
pub record Bundle : Type 0 where
  pub sdl : Bytes
  pub others : Bytes

-- `viewbundle.DecodeHeader` and `EncodeHeader`
pub record BundleLib : Type 0 where
  pub decode : Bytes → Result LibError Bundle
  pub encode : Bundle → Result LibError Bytes

abbrev pub register_method : Bytes
register_method = codes "register"

abbrev pub get_method : Bytes
get_method = codes "get"

unfoldable pub value_argument : List Arg → Result EvmError Bytes
value_argument args = elim (arg_at args 0) [
  | none ↦ err (EvmError.missing_argument 0)
  | some a ↦ elim a [
    | bytes b ↦ ok b
    | uint8 n ↦ err (EvmError.invalid_argument (codes "value"))
    | bytes32 b ↦ err (EvmError.invalid_argument (codes "value"))
    | other ↦ err (EvmError.invalid_argument (codes "value"))
  ]
]

unfoldable pub key_argument : List Arg → Result EvmError Bytes
key_argument args = elim (arg_at args 0) [
  | none ↦ err (EvmError.missing_argument 0)
  | some a ↦ elim a [
    | bytes32 b ↦ ok b
    | uint8 n ↦ err (EvmError.invalid_argument (codes "key"))
    | bytes b ↦ err (EvmError.invalid_argument (codes "key"))
    | other ↦ err (EvmError.invalid_argument (codes "key"))
  ]
]

-- `stateDB.SetState(address, slot, value)`
unfoldable pub set_state : Bytes → Bytes → Bytes → World → World
set_state address slot value w = record w {
  storage = λ a k. if same a address && same k slot then value else w.storage a k;
}

-- Every failure of a library or of the keeper becomes a plain revert.
abbrev pub revert : {E : Type 0} → E → EvmError
revert e = EvmError.reverted

unfoldable pub find_name : Bytes → Result EvmError Match
find_name sdl = elim (find_type sdl) [ none ↦ err EvmError.reverted | some m ↦ ok m ]

abbrev pub to_reverted : {A : Type 0} → Result EvmError A × World → Result EvmError A × World
to_reverted (ok a, w) = (ok a, w)
to_reverted (err e, w) = (err EvmError.reverted, w)

-- The id of the view's object, and the schema text with the type renamed to it.
abbrev pub view_id : EvmLib → Match → Bytes → Bytes
view_id lib m key = (m.name ++ codes "_") ++ lib.hash_hex key

abbrev pub rename : Match → Bytes → Bytes
rename m id = (m.before ++ id) ++ m.after

abbrev pub creator_slot : EvmLib → Bytes → Bytes
creator_slot lib key = lib.keccak (codes "view.creator" ++ key)

unfoldable pub view_registry_register : Env → EvmLib → BundleLib → Contract → List Arg → Call Bytes
view_registry_register env lib bundles contract args = do
  value ← lift (value_argument args)
  bundle ← lift (map_err revert (bundles.decode value))
  m ← lift (find_name bundle.sdl)
  let key = lib.keccak (contract.caller ++ value)
  let id = view_id lib m key
  encoded ← lift (map_err revert (bundles.encode (record bundle { sdl = rename m id })))
  (λ w. to_reverted (on_module (register_object env id) w))
  modify (
      set_state contract.address (creator_slot lib key)
        (lib.bytes_to_hash (lib.left_pad_32 contract.caller)))
  modify (
      add_log (
        log contract.address
          (lib.keccak (codes "Registered(bytes32,address)")
            ∷ key
            ∷ lib.bytes_to_hash contract.caller
            ∷ [])
          encoded))
  on_module (
      modify (
        emit (
          event (codes "Registered") (
            (codes "key", lib.hash_hex key)
            ∷ (codes "creator", lib.account_string contract.caller)
            ∷ (codes "view", lib.base64 encoded)
            ∷ []))))
  pure []

-- `get` reads the slot under the key.
unfoldable pub view_registry_get : EvmLib → Contract → List Arg → Call Bytes
view_registry_get lib contract args = do
  key ← lift (key_argument args)
  gets (λ w. w.storage contract.address (lib.bytes_to_hash key))

unfoldable pub is_transaction : Bytes → Bool
is_transaction name =
    if same name register_method then true else if same name get_method then false else false

unfoldable pub handle_method : Env → EvmLib → BundleLib → Contract → Bytes → List Arg → Call Bytes
handle_method env lib bundles contract name args =
    if same name register_method
    then view_registry_register env lib bundles contract args
    else if same name get_method
    then view_registry_get lib contract args
    else fail (EvmError.unknown_method name)

unfoldable pub run_view_registry : Env → EvmLib → BundleLib → Frame → Contract → Call Bytes
run_view_registry env lib bundles f contract =
    run f contract (λ e. e) is_transaction (handle_method env lib bundles contract)
