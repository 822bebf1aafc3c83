-- ===== src/Sourcehub/System/Export.antt =====
-- What an export of the state and a new genesis keep of the registry.
use shinzohub.Prelude.{ℕ, Bytes, none, ◌≡◌, ◌≢◌, refl, arith}
use shinzohub.Sourcehub.Keys.{
  key_connection_id, key_host_connection_id, key_version, key_encoding, key_tx_type, key_policy_id,
}
use shinzohub.Sourcehub.Roles.{addr_role_key, did_role_key}
use shinzohub.Sourcehub.Roles.KeyLaws.{addr_role_key-head, did_role_key-head}
use shinzohub.Sourcehub.State.{State}
use shinzohub.Sourcehub.Keeper.{
  get_controller_connection_id, get_host_connection_id, get_version, get_encoding, get_tx_type,
  get_policy_id, get_string, set_key,
}
use shinzohub.Sourcehub.Keeper.Laws.{head_or_zero, get_string-set_key_other}
use shinzohub.Sourcehub.Registration.{link, get_did_for_address_role}
use shinzohub.Sourcehub.Genesis.{GenesisState, init_genesis, export_genesis}
use shinzohub.Sourcehub.System.{empty_state}
use shinzohub.Sourcehub.System.Registry.{genesis-addr}

-- A text that is stored under no key of the registry reads as before a registration.
get_string-link :
    (j a d : Bytes) (r : ℕ) (s : State)
    → head_or_zero j ≢ 97
    → head_or_zero j ≢ 100
    → get_string j (link a r d s) ≡ get_string j s
unfolding link
get_string-link j a d r s n97 n100 = rw (
  get_string-set_key_other (did_role_key d r) a j (omega (arith, did_role_key-head d r)),
  get_string-set_key_other (addr_role_key a r) d j (omega (arith, addr_role_key-head a r)),
)

link-params : (a d : Bytes) (r : ℕ) (s : State) → (link a r d s).params ≡ s.params
unfolding link set_key
link-params a d r s = refl

-- A registration leaves no trace in the exported genesis state, and a chain that starts from any
-- genesis state has no DID for any address: registrations do not survive an export.
pub export_forgets :
    (a d : Bytes) (r : ℕ) (s : State)
    → (export_genesis (link a r d s) ≡ export_genesis s)
      × ((gs : GenesisState) → get_did_for_address_role a r (init_genesis gs empty_state) ≡ none)
unfolding export_genesis get_did_for_address_role get_controller_connection_id
    get_host_connection_id get_version get_encoding get_tx_type get_policy_id
export_forgets a d r s = (
  ground (
    arith,
    link-params a d r s,
    get_string-link key_connection_id a d r s (omega arith) (omega arith),
    get_string-link key_host_connection_id a d r s (omega arith) (omega arith),
    get_string-link key_version a d r s (omega arith) (omega arith),
    get_string-link key_encoding a d r s (omega arith) (omega arith),
    get_string-link key_tx_type a d r s (omega arith) (omega arith),
    get_string-link key_policy_id a d r s (omega arith) (omega arith),
  ),
  λ gs. rw (genesis-addr gs empty_state a r, get_did_for_address_role),
)
