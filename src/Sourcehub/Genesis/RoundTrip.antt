-- ===== src/Sourcehub/Genesis/RoundTrip.antt =====
-- Genesis states survive an import and an export.
use shinzohub.Prelude.{some, ◌≡◌, refl, same}
use shinzohub.Sourcehub.State.{State}
use shinzohub.Sourcehub.Keeper.{
  set_controller_connection_id, get_controller_connection_id, set_host_connection_id,
  get_host_connection_id, set_version, get_version, set_encoding, get_encoding, set_tx_type,
  get_tx_type, set_policy_id, get_policy_id, set_params, get_string, set_key,
}
use shinzohub.Sourcehub.Genesis.{GenesisState, init_genesis, export_genesis}

-- Exporting right after an import gives back the genesis state, whatever the state was before.
pub export_genesis-init_genesis :
    (gs : GenesisState) (s : State) → export_genesis (init_genesis gs s) ≡ some gs
unfolding export_genesis init_genesis set_controller_connection_id get_controller_connection_id
    set_host_connection_id get_host_connection_id set_version get_version set_encoding get_encoding
    set_tx_type get_tx_type set_policy_id get_policy_id set_params get_string set_key same
export_genesis-init_genesis gs s = refl

-- The import sets the policy's id.
pub get_policy_id-init_genesis :
    (gs : GenesisState) (s : State) → get_policy_id (init_genesis gs s) ≡ gs.policy_id
unfolding init_genesis set_policy_id get_policy_id set_params get_string set_key same
get_policy_id-init_genesis gs s = refl
