-- ===== src/Sourcehub/System/Policy.antt =====
-- The policy's id is fixed at genesis: no call of the module changes it, not even the one that creates
-- the policy.
use shinzohub.Prelude.{ℕ, Bytes, Option, [], ◌≡◌, inl, inr, refl, ◌∙◌, arith, ok, Fails}
use shinzohub.Sourcehub.Keys.{key_policy_id}
use shinzohub.Sourcehub.State.{State, Env}
use shinzohub.Sourcehub.Crypto.{Crypto}
use shinzohub.Sourcehub.Roles.{addr_role_key, did_role_key}
use shinzohub.Sourcehub.Roles.KeyLaws.{addr_role_key-head, did_role_key-head}
use shinzohub.Sourcehub.Keeper.{Keeper, get_policy_id, get_string}
use shinzohub.Sourcehub.Keeper.Laws.{set_key-other}
use shinzohub.Sourcehub.Packets.{require_policy_id}
use shinzohub.Sourcehub.Registration.{EntityProof, link, register_entity, register_object}
use shinzohub.Sourcehub.Registration.Outcome.{register_entity_cases, register_object_cases}
use shinzohub.Sourcehub.Messages.{MsgRegisterShinzoObjects, MsgRequestStreamAccess}
use shinzohub.Sourcehub.Server.{register_shinzo_objects, request_stream_access}
use shinzohub.Sourcehub.Server.Outcome.{request_stream_access_cases}
use shinzohub.Sourcehub.Server.Objects.{register_shinzo_objects_cases}
use shinzohub.Sourcehub.Genesis.{GenesisState, init_genesis}
use shinzohub.Sourcehub.Genesis.RoundTrip.{get_policy_id-init_genesis}
use shinzohub.Sourcehub.System.{empty_state, Reach}
use shinzohub.Sourcehub.System.Invariants.{IsKept, Reach-keeps, controller-other, host-other}

link-policy :
    (a d : Bytes) (r : ℕ) (s : State) → (link a r d s).store key_policy_id ≡ s.store key_policy_id
unfolding link
link-policy a d r s = rw (
  set_key-other (did_role_key d r) a key_policy_id (omega (arith, did_role_key-head d r)),
  set_key-other (addr_role_key a r) d key_policy_id (omega (arith, addr_role_key-head a r)),
)

Policy-kept : (v : Option Bytes) → IsKept (λ s. s.store key_policy_id ≡ v)
Policy-kept v = record {
  stable = record {
    calls = λ s cs h. h;
    events = λ s es h. h;
    controller = λ s id h. controller-other id key_policy_id s (omega arith) ∙ h;
    host = λ s id h. host-other id key_policy_id s (omega arith) ∙ h;
  };
  links = λ a d r s fa fd h. link-policy a d r s ∙ h;
}

-- No sequence of registrations and messages changes the id of the policy, failed or not.
pub policy_fixed :
    (c : Crypto) (text : Bytes) (k : Keeper) {s t : State}
    → Reach c text k s t
    → get_policy_id t ≡ get_policy_id s
unfolding get_policy_id get_string
policy_fixed c text k {s} {t} reach =
    let same_entry : t.store key_policy_id ≡ s.store key_policy_id =
      Reach-keeps (λ u. u.store key_policy_id ≡ s.store key_policy_id)
        (Policy-kept (s.store key_policy_id)) c text k reach refl in
    rw (same_entry, get_string)

-- Without a policy id nothing is sent in its name.
no_policy :
    (s : State) (policy : Bytes) → get_policy_id s ≡ [] → require_policy_id s ≡ (ok policy, s) → ⊥
unfolding require_policy_id
no_policy s policy e h = ground arith

-- In every state reached from a genesis with no policy id, the registration of an entity, of a view or
-- of objects and the request of an access all fail and change nothing.
pub no_policy_refuses :
    (c : Crypto) (text : Bytes) (k : Keeper) (gs : GenesisState) {t : State}
    → gs.policy_id ≡ []
    → Reach c text k (init_genesis gs empty_state) t
    → ((env : Env) (p : EntityProof) (r : ℕ) (a : Bytes) → Fails (register_entity c env p r a t) t)
      × ((env : Env) (id : Bytes) → Fails (register_object env id t) t)
      × ((env : Env) (m : MsgRegisterShinzoObjects) → Fails (register_shinzo_objects k env m t) t)
      × ((env : Env) (m : MsgRequestStreamAccess) → Fails (request_stream_access k env m t) t)
no_policy_refuses c text k gs {t} none' reach =
    let absent : get_policy_id t ≡ [] =
      policy_fixed c text k reach ∙ get_policy_id-init_genesis gs empty_state ∙ none' in
    (
      λ env p r a. elim (register_entity_cases c env p r a t) [
        | inl f ↦ f
        | inr (did, pid, d) ↦ absurd (no_policy t _ absent d.has_policy)
      ],
      λ env id. elim (register_object_cases env id t) [
        | inl f ↦ f
        | inr d ↦ absurd (no_policy t _ absent d.has_policy)
      ],
      λ env m. elim (register_shinzo_objects_cases k env m t) [
        | inl f ↦ f
        | inr d ↦ absurd (no_policy t _ absent d.has_policy)
      ],
      λ env m. elim (request_stream_access_cases k env m t) [
        | inl f ↦ f
        | inr d ↦ absurd (no_policy t _ absent d.has_policy)
      ],
    )
