-- ===== src/Sourcehub/Keeper.antt =====
-- x/sourcehub/keeper/ica.go, policy.go, params.go and the accounts of keeper.go: the keeper's typed
-- access to the module's store, and who may administer the module.
pub mod Laws
use shinzohub.Prelude.{
  ℕ, Bytes, Bool, true, false, Option, none, some, List, [], ◌∷◌, Result, ok, err, Exec, pure, gets,
  modify, ◌>>=◌, ◌>>◌, same, codes, is_empty, ◌||◌, if◌then◌else◌,
}
use shinzohub.Sourcehub.Keys.{
  key_connection_id, key_host_connection_id, key_version, key_encoding, key_tx_type, key_policy_id,
}
use shinzohub.Sourcehub.State.{Store, State, Params, Env, Error}

-- `store.Set(key, value)`
unfoldable pub write : Bytes → Bytes → Store → Store
write key value store j = if same j key then some value else store j

unfoldable pub set_key : Bytes → Bytes → State → State
unfolding write
set_key key value s = record s { store = write key value s.store }

-- A key that is not there reads as the empty string.
unfoldable pub get_string : Bytes → State → Bytes
get_string key s = elim (s.store key) [ none ↦ [] | some bz ↦ bz ]

unfoldable pub set_controller_connection_id : Bytes → State → State
unfolding set_key
set_controller_connection_id id = set_key key_connection_id id

unfoldable pub get_controller_connection_id : State → Bytes
unfolding get_string
get_controller_connection_id = get_string key_connection_id

unfoldable pub set_host_connection_id : Bytes → State → State
unfolding set_key
set_host_connection_id id = set_key key_host_connection_id id

unfoldable pub get_host_connection_id : State → Bytes
unfolding get_string
get_host_connection_id = get_string key_host_connection_id

unfoldable pub set_version : Bytes → State → State
unfolding set_key
set_version v = set_key key_version v

unfoldable pub get_version : State → Bytes
unfolding get_string
get_version = get_string key_version

unfoldable pub set_encoding : Bytes → State → State
unfolding set_key
set_encoding v = set_key key_encoding v

unfoldable pub get_encoding : State → Bytes
unfolding get_string
get_encoding = get_string key_encoding

unfoldable pub set_tx_type : Bytes → State → State
unfolding set_key
set_tx_type v = set_key key_tx_type v

unfoldable pub get_tx_type : State → Bytes
unfolding get_string
get_tx_type = get_string key_tx_type

unfoldable pub set_policy_id : Bytes → State → State
unfolding set_key
set_policy_id v = set_key key_policy_id v

unfoldable pub get_policy_id : State → Bytes
unfolding get_string
get_policy_id = get_string key_policy_id

unfoldable pub get_params : State → Result Error Params
get_params s = elim s.params [ none ↦ err Error.get_params_failed | some p ↦ ok p ]

unfoldable pub set_params : Params → State → State
set_params p s = record s { params = some p }

-- The map is marshalled with its keys in order, whatever the order of its literal.
unfoldable pub get_ica_metadata : Env → State → Bytes
unfolding get_version get_controller_connection_id get_host_connection_id get_encoding get_tx_type
get_ica_metadata env s =
    elim (env.marshal_json (
      (codes "version", get_version s)
      ∷ (codes "controller_connection_id", get_controller_connection_id s)
      ∷ (codes "host_connection_id", get_host_connection_id s)
      ∷ (codes "encoding", get_encoding s)
      ∷ (codes "tx_type", get_tx_type s)
      ∷ [])) [ ok bz ↦ bz | err e ↦ [] ]

-- The part of the keeper that is fixed when it is made.
pub record Keeper : Type 0 where
  pub authority : Bytes

-- `NewKeeper` panics on an authority that is no bech32 address: `none`.
unfoldable pub new_keeper : (Bytes → Bool) → Bytes → Option Keeper
new_keeper is_bech32 authority =
    if is_bech32 authority then some (record { authority = authority }) else none

unfoldable pub get_admins : Keeper → State → List Bytes
unfolding get_params
get_admins k s = elim (get_params s) [
  | err e ↦ k.authority ∷ []
  | ok p ↦
      if is_empty p.admin || same p.admin k.authority
      then k.authority ∷ []
      else p.admin ∷ k.authority ∷ []
]

-- The loop over the admins.
unfoldable pub find_admin : Bytes → List Bytes → Bool
find_admin address [] = false
find_admin address (admin ∷ rest) =
    let more = find_admin address rest in if same admin address then true else more

unfoldable pub is_admin : Keeper → Bytes → State → Bool
unfolding get_admins find_admin
is_admin k address s = find_admin address (get_admins k s)
