-- ===== src/Precompiles/Entities.antt =====
-- The EntityRegistry precompile: app/precompiles/entityregistry/method.go and entityregistry.go.
pub mod Arguments
pub mod Register
use shinzohub.Prelude.{
  ℕ, ◌+◌, ◌*◌, ◌/◌, ◌%◌, Bytes, Bool, true, false, Option, none, some, List, [], ◌∷◌, ◌++◌, Result,
  ok, err, map_err, pure, fail, lift, modify, ◌>>=◌, ◌>>◌, codes, is_empty, same, ltb,
  if◌then◌else◌,
}
use shinzohub.Sourcehub.State.{State, Env, event}
use shinzohub.Sourcehub.Crypto.{Crypto}
use shinzohub.Sourcehub.Registration.{EntityProof, register_entity}
use shinzohub.Sourcehub.Server.{emit}
use shinzohub.Precompiles.Evm.{
  Log, log, World, Contract, Arg, bytes, uint8, bytes32, other, EvmLib, EvmError, Call, on_module,
  arg_at, add_log, Frame, run,
}

abbrev pub register_method : Bytes
register_method = codes "register"

-- `args[i].([]byte)`, which must not be empty.
unfoldable pub bytes_argument : Bytes → List Arg → ℕ → Result EvmError Bytes
bytes_argument name args i = elim (arg_at args i) [
  | none ↦ err (EvmError.missing_argument i)
  | some a ↦ elim a [
    | bytes b ↦ if is_empty b then err (EvmError.invalid_argument name) else ok b
    | uint8 n ↦ err (EvmError.invalid_argument name)
    | bytes32 b ↦ err (EvmError.invalid_argument name)
    | other ↦ err (EvmError.invalid_argument name)
  ]
]

-- `args[5].(uint8)`
unfoldable pub entity_argument : List Arg → ℕ → Result EvmError ℕ
entity_argument args i = elim (arg_at args i) [
  | none ↦ err (EvmError.missing_argument i)
  | some a ↦ elim a [
    | uint8 n ↦ ok n
    | bytes b ↦ err (EvmError.invalid_argument (codes "entity"))
    | bytes32 b ↦ err (EvmError.invalid_argument (codes "entity"))
    | other ↦ err (EvmError.invalid_argument (codes "entity"))
  ]
]

-- Go's `string(n)` of a `uint8`: the character with that code point, in UTF-8.
unfoldable pub string_of_uint8 : ℕ → Bytes
string_of_uint8 n = if ltb n 128 then n ∷ [] else (192 + n / 64) ∷ (128 + n % 64) ∷ []

unfoldable pub entity_topic : Bytes
entity_topic = codes "EntityRegistered(bytes32,address,bytes,bytes,uint8)"

unfoldable pub entity_registry_register : Crypto → Env → EvmLib → Contract → List Arg → Call Bytes
entity_registry_register c env lib contract args = do
  peer_pubkey ← lift (bytes_argument (codes "peerKeyPubkey") args 0)
  peer_signature ← lift (bytes_argument (codes "peerKeySignature") args 1)
  node_pubkey ← lift (bytes_argument (codes "nodeIdentityKeyPubkey") args 2)
  node_signature ← lift (bytes_argument (codes "nodeIdentityKeySignature") args 3)
  message ← lift (bytes_argument (codes "message") args 4)
  entity ← lift (entity_argument args 5)
  ids ← on_module (
      register_entity c env
        (record {
          peer_pubkey = peer_pubkey;
          peer_signature = peer_signature;
          node_pubkey = node_pubkey;
          node_signature = node_signature;
          message = message;
        })
        entity contract.caller)
  let key = lib.keccak (contract.caller ++ ids.0)
  packed ← lift (map_err EvmError.pack_failed (lib.pack_entity ids.0 ids.1 entity))
  modify (
      add_log (
        log contract.address
          (lib.keccak entity_topic ∷ key ∷ lib.bytes_to_hash contract.caller ∷ []) packed))
  on_module (
      modify (
        emit (
          event (codes "EntityRegistered") (
            (codes "key", lib.hash_hex key)
            ∷ (codes "owner", lib.account_string contract.caller)
            ∷ (codes "did", ids.0)
            ∷ (codes "pid", ids.1)
            ∷ (codes "entity", string_of_uint8 entity)
            ∷ []))))
  pure []

unfoldable pub is_transaction : Bytes → Bool
is_transaction name = if same name register_method then true else false

unfoldable pub handle_method : Crypto → Env → EvmLib → Contract → Bytes → List Arg → Call Bytes
handle_method c env lib contract name args =
    if same name register_method
    then entity_registry_register c env lib contract args
    else fail (EvmError.unknown_method name)

-- An error of the method is returned as a revert with its text.
unfoldable pub run_entity_registry : Crypto → Env → EvmLib → Frame → Contract → Call Bytes
run_entity_registry c env lib f contract =
    run f contract EvmError.revert_with is_transaction (handle_method c env lib contract)
