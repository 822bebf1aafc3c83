-- ===== src/Sourcehub/Genesis.antt =====
-- The genesis state: x/sourcehub/types/genesis.go and x/sourcehub/keeper/genesis.go.
pub mod RoundTrip
pub mod Json
use shinzohub.Prelude.{Bytes, Option, none, some, [], codes}
use shinzohub.Sourcehub.State.{State, Params}
use shinzohub.Sourcehub.Keeper.{
  set_controller_connection_id, get_controller_connection_id, set_host_connection_id,
  get_host_connection_id, set_version, get_version, set_encoding, get_encoding, set_tx_type,
  get_tx_type, set_policy_id, get_policy_id, set_params,
}

-- `types.GenesisState`
pub record GenesisState : Type 0 where
  pub controller_connection_id : Bytes
  pub host_connection_id : Bytes
  pub version : Bytes
  pub encoding : Bytes
  pub tx_type : Bytes
  pub policy_id : Bytes
  pub params : Params

unfoldable pub default_genesis : GenesisState
default_genesis = record {
  controller_connection_id = codes "connection-0";
  host_connection_id = codes "connection-0";
  version = codes "ics27-1";
  encoding = codes "proto3";
  tx_type = codes "sdk_multi_msg";
  policy_id = codes "";
  params = record { admin = [] };
}

-- `Validate` accepts every state, so nothing panics here.
unfoldable pub init_genesis : GenesisState → State → State
init_genesis gs s =
    let s₁ = set_controller_connection_id gs.controller_connection_id s in
    let s₂ = set_host_connection_id gs.host_connection_id s₁ in
    let s₃ = set_version gs.version s₂ in
    let s₄ = set_encoding gs.encoding s₃ in
    let s₅ = set_tx_type gs.tx_type s₄ in
    let s₆ = set_policy_id gs.policy_id s₅ in set_params gs.params s₆

-- `none` where the code panics, because the parameters were never set.
unfoldable pub export_genesis : State → Option GenesisState
export_genesis s = elim s.params [
  | none ↦ none
  | some p ↦ some (record {
    controller_connection_id = get_controller_connection_id s;
    host_connection_id = get_host_connection_id s;
    version = get_version s;
    encoding = get_encoding s;
    tx_type = get_tx_type s;
    policy_id = get_policy_id s;
    params = p;
  })
]
