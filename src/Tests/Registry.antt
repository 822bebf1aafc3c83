-- ===== src/Tests/Registry.antt =====
-- The theorems on registrations of x/sourcehub at alice's registration.
use shinzohub.Sourcehub.Roles
use shinzohub.Prelude.{
  false, same, format_digits, format_uint, Bytes, some, [], ok, err, ◌≡◌, ◌↔◌, ◌⊎◌, none, refl,
  Fails, codes,
}
use shinzohub.Sourcehub.State.{State, Error}
use shinzohub.Sourcehub.Roles.{addr_role_key, did_role_key}
use shinzohub.Sourcehub.Crypto
use shinzohub.Sourcehub.Keeper
use shinzohub.Sourcehub.Packets
use shinzohub.Sourcehub.Registration.{
  register_entity, register_object, get_did_for_address_role, verify_entity, holds_other,
  check_links, link,
}
use shinzohub.Sourcehub.Registration
use shinzohub.Sourcehub.Registration.Verified.{IsVerified, registered-IsVerified}
use shinzohub.Sourcehub.Registration.Replay.{front_run}
use shinzohub.Sourcehub.Registration.Outcome.{guest_message, IsRegistered, register_entity_cases}
use shinzohub.Sourcehub.Packets.{Channel, open_channel, require_policy_id}
use shinzohub.Sourcehub.Packets.Outcome.{IsMessage}
use shinzohub.Sourcehub.Genesis.{init_genesis}
use shinzohub.Sourcehub.System.{Reach, here, next, entity, object}
use shinzohub.Sourcehub.System.Registry.{registry_inverse, registration_permanent}
use shinzohub.Sourcehub.System.Acceptance.{register_entity_iff}
use shinzohub.Sourcehub.System.Refinement.{Claims, IsClaimable, dids_of, registry_refines}
use shinzohub.Tests.Fixtures.{
  toy_channel, toy_crypto, toy_env, toy_keeper, toy_genesis, toy_proof, toy_did, peer_key, alice,
  bob, start, registered_state,
}

reached : Reach toy_crypto [] toy_keeper start registered_state
reached = next here (
    entity toy_env toy_proof 1 alice (register_entity toy_crypto toy_env toy_proof 1 alice start).0
      refl)

-- What the state and the registration compute to.
facts :
    (register_entity toy_crypto toy_env toy_proof 1 alice start
      ≡ (ok (toy_did, peer_key), registered_state))
    × (get_did_for_address_role alice 1 registered_state ≡ some toy_did)
    × (start.store (addr_role_key bob 1) ≡ none)
    × (start.store (did_role_key toy_did 1) ≡ none)
    × (open_channel toy_env start ≡ (ok toy_channel, start))
    × (require_policy_id start ≡ (ok (codes "policy"), start))
    × (verify_entity toy_crypto toy_proof ≡ ok (toy_did, peer_key))
    × (holds_other (start.store (addr_role_key alice 1)) toy_did ≡ false)
    × (holds_other (start.store (did_role_key toy_did 1)) alice ≡ false)
unfolding register_entity register_object Packets.open_channel init_genesis Keeper.set_params
    Keeper.set_policy_id same Keeper.set_tx_type Keeper.set_encoding Keeper.set_version
    Keeper.set_host_connection_id Keeper.set_controller_connection_id Packets.require_policy_id
    Registration.verify_entity Crypto.verify_peer_key_signature
    Crypto.verify_node_identity_key_signature Crypto.derive_pid Crypto.derive_did
    Registration.check_links format_digits format_uint Keeper.get_controller_connection_id
    Keeper.get_policy_id Keeper.get_string Keeper.set_key Keeper.write Packets.send_message
    Packets.send_messages Packets.send_tx Registration.holds_other Registration.link addr_role_key
    Roles.bytes_equal did_role_key Roles.equal_loop Roles.role_to_string get_did_for_address_role
facts = (refl, refl, refl, refl, refl, refl, refl, refl, refl)

registry_inverse_example :
    (registered_state.store (addr_role_key alice 1) ≡ some toy_did)
    ↔ (registered_state.store (did_role_key toy_did 1) ≡ some alice)
registry_inverse_example =
    registry_inverse toy_crypto [] toy_keeper toy_genesis alice toy_did 1 reached (λ p. cc)
      (λ p. cc)

abbrev later_state : State
later_state = (register_object toy_env (codes "view_1") registered_state).1

reached_later : Reach toy_crypto [] toy_keeper registered_state later_state
reached_later = next here (
    object toy_env (codes "view_1") (register_object toy_env (codes "view_1") registered_state).0
      refl)

registration_permanent_example : get_did_for_address_role alice 1 later_state ≡ some toy_did
registration_permanent_example =
    registration_permanent toy_crypto [] toy_keeper alice toy_did 1 reached_later facts.1

registered-IsVerified_example : IsVerified toy_crypto toy_proof toy_did peer_key
registered-IsVerified_example =
    registered-IsVerified toy_crypto toy_env toy_proof 1 alice start registered_state toy_did
      peer_key facts.0

register_entity_cases_example :
    ((e : Error) × (register_entity toy_crypto toy_env toy_proof 1 alice start ≡ (err e, start)))
    ⊎ ((did : Bytes) × (pid : Bytes) × IsRegistered toy_crypto toy_env toy_proof 1 alice start did
          pid)
register_entity_cases_example = register_entity_cases toy_crypto toy_env toy_proof 1 alice start

front_run_example :
    ((register_entity toy_crypto toy_env toy_proof 1 bob start).0 ≡ ok (toy_did, peer_key))
    × Fails
        (register_entity toy_crypto toy_env toy_proof 1 alice
          (register_entity toy_crypto toy_env toy_proof 1 bob start).1)
        (register_entity toy_crypto toy_env toy_proof 1 bob start).1
front_run_example =
    front_run toy_crypto toy_env toy_env toy_proof 1 alice bob start registered_state toy_did
      peer_key (λ p. cc) (λ p. cc) facts.2 facts.3 facts.0

guest_sent : IsMessage toy_env toy_channel (guest_message toy_channel (codes "policy") 1 toy_did) []
guest_sent = record {
  any = record { type_url = []; value = [] };
  wrapped = refl;
  is_sent = record { marshalled = refl; sequence = 1; accepted = refl };
}

register_entity_iff_example :
    ((register_entity toy_crypto toy_env toy_proof 1 alice start).0 ≡ ok (toy_did, peer_key))
    ↔ IsClaimable (dids_of start) alice toy_did 1
register_entity_iff_example =
    register_entity_iff toy_crypto [] toy_keeper toy_genesis toy_env toy_proof 1 alice toy_did
      peer_key toy_channel (codes "policy") [] here (λ p. cc) facts.4 facts.5 facts.6 guest_sent

-- The genesis state, in which nobody is registered, and alice's claim after it.
registry_refines_example : Claims (dids_of start) (dids_of registered_state)
registry_refines_example = registry_refines toy_crypto [] toy_keeper toy_genesis here reached
