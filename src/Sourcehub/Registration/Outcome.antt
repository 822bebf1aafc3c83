-- ===== src/Sourcehub/Registration/Outcome.antt =====
-- How `RegisterEntity` ends: on every failing branch the state is as before, and otherwise one packet
-- was accepted and both indexes were written.
use shinzohub.Prelude.{
  ℕ, Bytes, false, ◌≡◌, ◌⊎◌, inl, inr, ok, err, Result-cases, reads_Ends, arith, codes,
}
use shinzohub.Acp.{
  AcpMsg, PolicyCmd, new_object, direct_policy_cmd, set_relationship, actor_relationship,
}
use shinzohub.Sourcehub.Keys.{view_resource_name}
use shinzohub.Sourcehub.State.{State, Env, Error}
use shinzohub.Sourcehub.Roles.{role_to_string, addr_role_key, did_role_key}
use shinzohub.Sourcehub.Crypto.{Crypto}
use shinzohub.Sourcehub.Packets.{Channel, open_channel, require_policy_id}
use shinzohub.Sourcehub.Packets.Outcome.{
  open_channel_reads, require_policy_id_reads, after_packet, IsMessage, send_message_cases,
}
use shinzohub.Sourcehub.Registration.{
  EntityProof, verify_entity, holds_other, check_links, link, register_entity, register_object,
}

check_links_reads : (a : Bytes) (r : ℕ) (d : Bytes) (s : State) → (check_links a r d s).1 ≡ s
unfolding check_links
check_links_reads a r d s = ground arith

pub check_links-ok :
    (a : Bytes) (r : ℕ) (d : Bytes) (s : State)
    → check_links a r d s ≡ (ok tt, s)
    → (holds_other (s.store (addr_role_key a r)) d ≡ false)
      × (holds_other (s.store (did_role_key d r)) a ≡ false)
unfolding check_links
check_links-ok a r d s h = ground arith

-- The message that makes `did` a guest of the role's group.
abbrev pub guest_message : Channel → Bytes → ℕ → Bytes → AcpMsg
guest_message ch policy role did = direct_policy_cmd ch.account policy (
    set_relationship (actor_relationship (codes "group") (role_to_string role) (codes "guest") did))

-- A registration that was carried out.
pub record IsRegistered (c : Crypto) (env : Env) (p : EntityProof) (r : ℕ) (a : Bytes) (s : State)
    (did pid : Bytes) : Type 0 where
  pub verified : verify_entity c p ≡ ok (did, pid)
  pub free_addr : holds_other (s.store (addr_role_key a r)) did ≡ false
  pub free_did : holds_other (s.store (did_role_key did r)) a ≡ false
  pub channel : Channel
  pub opened : open_channel env s ≡ (ok channel, s)
  pub policy : Bytes
  pub has_policy : require_policy_id s ≡ (ok policy, s)
  pub packet : Bytes
  pub is_message : IsMessage env channel (guest_message channel policy r did) packet
  pub result :
      register_entity c env p r a s
      ≡ (ok (did, pid), link a r did (after_packet env channel packet s))

-- A call of `RegisterEntity` either fails and leaves the state as it was, or the proofs hold,
-- neither the address nor the DID had another partner in the role, one packet was accepted that makes the DID a guest of the role's
-- group, and both indexes then hold the pair.
pub register_entity_cases :
    (c : Crypto) (env : Env) (p : EntityProof) (r : ℕ) (a : Bytes) (s : State)
    → ((e : Error) × (register_entity c env p r a s ≡ (err e, s)))
      ⊎ ((did : Bytes) × (pid : Bytes) × IsRegistered c env p r a s did pid)
unfolding register_entity
register_entity_cases c env p r a s =
    elim (reads_Ends (open_channel env s) s (open_channel_reads env s)) [
      | inl (e, q) ↦ inl (e, rw q)
      | inr (ch, q₁) ↦ elim (reads_Ends (require_policy_id s) s (require_policy_id_reads s)) [
        | inl (e, q) ↦ inl (e, rw (q₁, q))
        | inr (policy, q₂) ↦ elim (Result-cases (verify_entity c p)) [
          | inl (e, q) ↦ inl (e, rw (q₁, q₂, q))
          | inr (ids, q₃) ↦
              elim (reads_Ends (check_links a r ids.0 s) s (check_links_reads a r ids.0 s)) [
                | inl (e, q) ↦ inl (e, rw (q₁, q₂, q₃, q))
                | inr (u, q₄) ↦
                    elim (send_message_cases env ch (guest_message ch policy r ids.0) s) [
                      | inl (e, q) ↦ inl (e, rw (q₁, q₂, q₃, q₄, q))
                      | inr (bz, i, q₅) ↦ inr (
                        ids.0,
                        ids.1,
                        record {
                          verified = q₃;
                          free_addr = (check_links-ok a r ids.0 s q₄).0;
                          free_did = (check_links-ok a r ids.0 s q₄).1;
                          channel = ch;
                          opened = q₁;
                          policy = policy;
                          has_policy = q₂;
                          packet = bz;
                          is_message = i;
                          result = rw (q₁, q₂, q₃, q₄, q₅);
                        },
                      )
                    ]
              ]
        ]
      ]
    ]

-- A view object whose registration was sent.
pub record IsObjectSent (env : Env) (id : Bytes) (s : State) : Type 0 where
  pub channel : Channel
  pub opened : open_channel env s ≡ (ok channel, s)
  pub policy : Bytes
  pub has_policy : require_policy_id s ≡ (ok policy, s)
  pub packet : Bytes
  pub is_message :
      IsMessage env channel
        (direct_policy_cmd channel.account policy
          (PolicyCmd.register_object (new_object view_resource_name id)))
        packet
  pub result : register_object env id s ≡ (ok tt, after_packet env channel packet s)

-- A call of `RegisterObject` either fails and leaves the state as it was, or has one packet accepted,
-- which registers the object with this id as a view under the policy, and records just this call.
pub register_object_cases :
    (env : Env) (id : Bytes) (s : State)
    → ((e : Error) × (register_object env id s ≡ (err e, s))) ⊎ IsObjectSent env id s
unfolding register_object
register_object_cases env id s =
    elim (reads_Ends (open_channel env s) s (open_channel_reads env s)) [
      | inl (e, q) ↦ inl (e, rw q)
      | inr (ch, q₁) ↦ elim (reads_Ends (require_policy_id s) s (require_policy_id_reads s)) [
        | inl (e, q) ↦ inl (e, rw (q₁, q))
        | inr (policy, q₂) ↦
            elim (send_message_cases env ch
              (direct_policy_cmd ch.account policy
                (PolicyCmd.register_object (new_object view_resource_name id)))
              s) [
                | inl (e, q) ↦ inl (e, rw (q₁, q₂, q))
                | inr (bz, i, q₃) ↦ inr (record {
                  channel = ch;
                  opened = q₁;
                  policy = policy;
                  has_policy = q₂;
                  packet = bz;
                  is_message = i;
                  result = rw (q₁, q₂, q₃);
                })
              ]
      ]
    ]
