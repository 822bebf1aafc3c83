-- ===== src/Tests/Server.antt =====
-- The theorems on the message server, the genesis and the messages of x/sourcehub.
use shinzohub.Prelude.{
  contains, sym, eq→same, ◌∙◌, ◌≢◌, Bytes, true, false, none, [], ◌∷◌, map, ok, err, Fails, codes,
  same, ℕ, ◌≡◌, ◌↔◌, ◌⊎◌, inl, inr, refl,
}
use shinzohub.Sourcehub.State.{State, Env, Error}
use shinzohub.Sourcehub.Keeper.{set_params, is_admin}
use shinzohub.Sourcehub.Registration.{
  EntityProof, register_entity, register_object, link, get_did_for_address_role,
}
use shinzohub.Sourcehub.Messages.{
  MsgRegisterShinzoObjects, MsgRegisterSourcehubIca, MsgRegisterShinzoPolicy,
  MsgRequestStreamAccess, normalize, validate_resources, validate_register_shinzo_objects,
}
use shinzohub.Sourcehub.Messages.Objects.{IsAcceptable, validate_register_shinzo_objects_iff}
use shinzohub.Sourcehub.Server.{
  shinzo_policy, handle, register_shinzo_objects, request_stream_access,
}
use shinzohub.Sourcehub.Server.Access.{MayAdminister, is_admin_iff, handle_unauthorized}
use shinzohub.Sourcehub.Server.Objects.{IsObjectsSent, register_shinzo_objects_cases}
use shinzohub.Sourcehub.Server.Outcome.{with_connections}
use shinzohub.Sourcehub.Genesis.{GenesisState, init_genesis, export_genesis, default_genesis}
use shinzohub.Sourcehub.Genesis.Json.{
  GenesisCodec, IsFaithful, validate_genesis, module_init_genesis, module_export_genesis,
  module_export_genesis-module_init_genesis,
}
use shinzohub.Sourcehub.Genesis.RoundTrip.{export_genesis-init_genesis}
use shinzohub.Sourcehub.System.{Reach, here, next, object, empty_state}
use shinzohub.Sourcehub.System.Policy.{no_policy_refuses}
use shinzohub.Sourcehub.System.Export.{export_forgets}
use shinzohub.Tests.Ascii.{ascii, lower, to_lower, is_space, trim_left, trim_right, trim_space}
use shinzohub.Tests.Fixtures.{
  toy_crypto, toy_env, toy_keeper, toy_genesis, toy_did, alice, bob, start, registered_state,
}

is_admin_iff_example :
    (is_admin toy_keeper (codes "ada") start ≡ true) ↔ MayAdminister toy_keeper (codes "ada") start
is_admin_iff_example = is_admin_iff toy_keeper (codes "ada") start

differ : (xs ys : Bytes) → same xs ys ≡ false → xs ≢ ys
differ xs ys h p = absurd (cc (eq→same xs ys p, h))

bob_is_no_admin : ¬ MayAdminister toy_keeper bob start
unfolding init_genesis set_params same
bob_is_no_admin (inl p) = differ bob (codes "gov") refl p
bob_is_no_admin (inr (p, q, ne, e)) =
    let admin : p.admin ≡ codes "ada" = cc (q) in differ bob (codes "ada") refl (e ∙ admin)

handle_unauthorized_example :
    handle [] toy_keeper toy_env (shinzo_policy (record { signer = bob })) start
    ≡ (err Error.unauthorized, start)
handle_unauthorized_example =
    handle_unauthorized [] toy_keeper toy_env (shinzo_policy (record { signer = bob })) start
      bob_is_no_admin

abbrev objects_msg : MsgRegisterShinzoObjects
objects_msg = record { signer = codes "gov"; resources = codes " Block" ∷ codes "log" ∷ [] }

register_shinzo_objects_cases_example :
    Fails (register_shinzo_objects toy_keeper toy_env objects_msg start) start
    ⊎ IsObjectsSent toy_keeper toy_env objects_msg start
register_shinzo_objects_cases_example =
    register_shinzo_objects_cases toy_keeper toy_env objects_msg start

abbrev policy_msg : MsgRegisterShinzoPolicy
policy_msg = record { signer = codes "gov" }

abbrev ica_msg : MsgRegisterSourcehubIca
ica_msg = record {
  signer = codes "gov";
  controller_connection_id = codes "connection-1";
  host_connection_id = codes "connection-2";
}

abbrev connected : State
connected = with_connections ica_msg start

-- A codec that writes a genesis state as it is.
abbrev toy_codec : GenesisCodec GenesisState
toy_codec = record { marshal_json = λ gs. ok gs; unmarshal_json = λ gs. ok gs }

toy_codec-IsFaithful : IsFaithful toy_codec
toy_codec-IsFaithful gs bz h = sym h

toy_exported : module_export_genesis toy_codec start ≡ ok toy_genesis
unfolding module_export_genesis
toy_exported = rw (module_export_genesis, export_genesis-init_genesis toy_genesis empty_state)

module_export_genesis-module_init_genesis_example :
    (validate_genesis toy_codec toy_genesis ≡ ok tt)
    × ((u : State) × (module_init_genesis toy_codec toy_genesis registered_state ≡ ok u)
        × (module_export_genesis toy_codec u ≡ ok toy_genesis))
module_export_genesis-module_init_genesis_example =
    module_export_genesis-module_init_genesis toy_codec start registered_state toy_genesis
      toy_codec-IsFaithful toy_exported

export_forgets_example :
    (export_genesis (link alice 1 toy_did start) ≡ export_genesis start)
    × ((gs : GenesisState) → get_did_for_address_role alice 1 (init_genesis gs empty_state) ≡ none)
export_forgets_example = export_forgets alice toy_did 1 start

abbrev default_start : State
default_start = init_genesis default_genesis empty_state

abbrev default_object : State
default_object = (register_object toy_env (codes "view_1") default_start).1

default_reached : Reach toy_crypto [] toy_keeper default_start default_object
default_reached = next here (
    object toy_env (codes "view_1") (register_object toy_env (codes "view_1") default_start).0 refl)

no_default_policy : default_genesis.policy_id ≡ []
unfolding default_genesis
no_default_policy = refl

no_policy_refuses_example :
    ((env : Env) (p : EntityProof) (r : ℕ) (a : Bytes)
      → Fails (register_entity toy_crypto env p r a default_object) default_object)
    × ((env : Env) (id : Bytes) → Fails (register_object env id default_object) default_object)
    × ((env : Env) (m : MsgRegisterShinzoObjects)
        → Fails (register_shinzo_objects toy_keeper env m default_object) default_object)
    × ((env : Env) (m : MsgRequestStreamAccess)
        → Fails (request_stream_access toy_keeper env m default_object) default_object)
no_policy_refuses_example =
    no_policy_refuses toy_crypto [] toy_keeper default_genesis no_default_policy default_reached

abbrev accepted_msg : MsgRegisterShinzoObjects
accepted_msg = record { signer = codes "gov"; resources = codes "block" ∷ codes "log" ∷ [] }

objects_accepted : validate_register_shinzo_objects ascii objects_msg ≡ ok accepted_msg
unfolding validate_register_shinzo_objects validate_resources normalize ascii lower to_lower
    is_space trim_left trim_right trim_space contains same
objects_accepted = refl

validate_register_shinzo_objects_iff_example :
    (validate_register_shinzo_objects ascii objects_msg ≡ ok accepted_msg) ↔ (
      IsAcceptable ascii objects_msg.resources
      × (accepted_msg
          ≡ record objects_msg { resources = map (normalize ascii) objects_msg.resources }))
validate_register_shinzo_objects_iff_example =
    validate_register_shinzo_objects_iff ascii objects_msg accepted_msg
