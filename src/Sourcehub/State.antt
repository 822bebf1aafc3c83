-- ===== src/Sourcehub/State.antt =====
-- The state that the keeper of x/sourcehub reads and writes, its errors, and the environment of one
-- transaction: the interchain-accounts controller keeper (types/expected_keepers.go), the block's
-- time and the codecs, which are code of other repositories.
use shinzohub.Prelude.{ℕ, Bytes, Bool, Option, List, Result, Exec}
use shinzohub.Acp.{AcpMsg}

-- The module's key-value store.
abbrev pub Store : Type 0
Store = Bytes → Option Bytes

-- `types.Params`
pub record Params : Type 0 where
  pub admin : Bytes

-- `icatypes.InterchainAccountPacketData`: data and memo.
pub data PacketData : Type 0 where
  execute_tx : Bytes → Bytes → PacketData

pub data Order : Type 0 where
  ordered : Order

-- The calls that the controller keeper has accepted, with their arguments.
pub data IcaCall : Type 0 where
  -- connection, port, packet, timeout
  sent : Bytes → Bytes → PacketData → ℕ → IcaCall
  -- connection, owner, version, ordering
  registered : Bytes → Bytes → Bytes → Order → IcaCall

-- `sdk.NewEvent(kind, attributes...)`
pub data Event : Type 0 where
  event : Bytes → List (Bytes × Bytes) → Event

-- `params` is the `collections.Item`, which has a value once it was set.
pub record State : Type 0 where
  pub store : Store
  pub params : Option Params
  pub calls : List IcaCall
  pub events : List Event

pub record Any : Type 0 where
  pub type_url : Bytes
  pub value : Bytes

-- The text of an error that other code returned.
abbrev pub LibError : Type 0
LibError = Bytes

-- The environment in which one message runs. `module_address` is `types.ModuleAddress.String()`.
pub record Env : Type 0 where
  pub module_address : Bytes
  pub block_time : ℕ
  pub ica_address : Bytes → Bytes → Bytes × Bool
  pub register_account : Bytes → Bytes → Bytes → Order → Result LibError (Unit {0})
  pub send_tx : Bytes → Bytes → PacketData → ℕ → Result LibError ℕ
  pub new_any : AcpMsg → Result LibError Any
  pub marshal_tx : List Any → Result LibError Bytes
  pub marshal_json : List (Bytes × Bytes) → Result LibError Bytes

pub data Error : Type 0 where
  unauthorized no_connection_id no_policy_id : Error
  ica_address_not_found : Bytes → Bytes → Error
  peer_pubkey_length peer_signature_length : ℕ → Error
  invalid_peer_signature invalid_signature did_failed : Error
  invalid_pubkey invalid_signature_encoding : LibError → Error
  ed25519_length : ℕ → Error
  unmarshal_failed peer_id_failed : LibError → Error
  address_registered did_registered : Error
  invalid_resource : ℕ → Error
  get_params_failed : Error
  wrap_primitive : Bytes → LibError → Error
  wrap_group_indexer wrap_group_host marshal_failed send_failed : LibError → Error
  library : LibError → Error

abbrev pub M : Type 0 → Type 0
M A = Exec State Error A
