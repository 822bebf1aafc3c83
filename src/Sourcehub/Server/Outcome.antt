-- ===== src/Sourcehub/Server/Outcome.antt =====
-- How the message handlers end: each fails with the state as before, or has done all of its work.
-- Only RegisterSourcehubICA writes before a step that may fail.
use shinzohub.Prelude.{
  ℕ, Bytes, true, false, some, [], ◌∷◌, ◌++◌, ◌≡◌, ◌⊎◌, inl, inr, ok, err, Fails, Result-cases,
  Option-cases, Bool-cases, reads_Ends, codes,
}
use shinzohub.Acp.{
  AcpMsg, direct_policy_cmd, create_policy, yaml, set_relationship, actor_relationship,
}
use shinzohub.Sourcehub.State.{State, Env, Error, ordered, registered}
use shinzohub.Sourcehub.Keeper.{
  Keeper, is_admin, set_controller_connection_id, set_host_connection_id,
  get_controller_connection_id, get_ica_metadata,
}
use shinzohub.Sourcehub.Packets.{Channel, open_channel, require_policy_id}
use shinzohub.Sourcehub.Packets.Outcome.{
  open_channel_reads, require_policy_id_reads, after_packet, IsMessage, send_message_cases,
}
use shinzohub.Sourcehub.Messages.{
  MsgRegisterSourcehubIca, MsgRegisterShinzoPolicy, MsgRequestStreamAccess,
}
use shinzohub.Sourcehub.Server.{
  require_admin, register_account, register_sourcehub_ica, register_shinzo_policy, uint_of_int32,
  resource_name, require_resource, access_event, request_stream_access, emit,
}

pub require_admin_cases :
    (k : Keeper) (signer : Bytes) (s : State)
    → ((is_admin k signer s ≡ false) × (require_admin k signer s ≡ (err Error.unauthorized, s)))
      ⊎ ((is_admin k signer s ≡ true) × (require_admin k signer s ≡ (ok tt, s)))
unfolding require_admin
require_admin_cases k signer s = elim (Bool-cases (is_admin k signer s)) [
  | inl yes' ↦ inr (yes', rw yes')
  | inr no' ↦ inl (no', rw no')
]

-- The two connection ids as the message gives them.
abbrev pub with_connections : MsgRegisterSourcehubIca → State → State
with_connections m s =
    set_host_connection_id m.host_connection_id
      (set_controller_connection_id m.controller_connection_id s)

register_account_cases :
    (env : Env) (connection version : Bytes) (s : State)
    → Fails (register_account env connection version s) s
      ⊎ (register_account env connection version s ≡ (
        ok tt,
        record s {
          calls = s.calls ++ registered connection env.module_address version ordered ∷ [];
        },
      ))
unfolding register_account
register_account_cases env connection version s =
    elim (Result-cases (env.register_account connection env.module_address version ordered)) [
      | inl (e, q) ↦ inl (Error.library e, rw (q, register_account))
      | inr (u, q) ↦ inr (rw (q, register_account))
    ]

-- `RegisterSourcehubICA` of a signer who is no admin is refused and changes nothing. With an admin the
-- connection ids are written, and either the call fails with nothing more changed, or the account is
-- registered on the new connection, and that call is recorded.
pub register_sourcehub_ica_cases :
    (k : Keeper) (env : Env) (m : MsgRegisterSourcehubIca) (s : State)
    → ((is_admin k m.signer s ≡ false)
        × (register_sourcehub_ica k env m s ≡ (err Error.unauthorized, s)))
      ⊎ ((is_admin k m.signer s ≡ true)
          × (Fails (register_sourcehub_ica k env m s) (with_connections m s)
              ⊎ (register_sourcehub_ica k env m s ≡ (
                ok tt,
                record (with_connections m s) {
                  calls =
                      (with_connections m s).calls
                      ++ registered
                          (get_controller_connection_id (with_connections m s))
                          env.module_address
                          (get_ica_metadata env (with_connections m s))
                          ordered
                        ∷ [];
                },
              ))))
unfolding register_sourcehub_ica
register_sourcehub_ica_cases k env m s = elim (require_admin_cases k m.signer s) [
  | inl (a, q) ↦ inl (a, rw q)
  | inr (a, q₁) ↦ inr (
    a,
    (elim (register_account_cases env (get_controller_connection_id (with_connections m s))
        (get_ica_metadata env (with_connections m s)) (with_connections m s)) [
          | inl (e, q) ↦ inl (e, rw (q₁, q))
          | inr q ↦ inr (rw (q₁, q))
        ]),
  )
]

-- A policy proposal that was sent.
pub record IsProposed (text : Bytes) (k : Keeper) (env : Env) (m : MsgRegisterShinzoPolicy)
    (s : State) : Type 0 where
  pub admin : is_admin k m.signer s ≡ true
  pub channel : Channel
  pub opened : open_channel env s ≡ (ok channel, s)
  pub packet : Bytes
  pub is_message : IsMessage env channel (create_policy channel.account text yaml) packet
  pub result : register_shinzo_policy text k env m s ≡ (ok tt, after_packet env channel packet s)

-- `RegisterShinzoPolicy` either fails and leaves the state as it was, or the signer is an admin and one
-- packet was accepted, which creates the policy of the given text, and just this call is recorded.
pub register_shinzo_policy_cases :
    (text : Bytes) (k : Keeper) (env : Env) (m : MsgRegisterShinzoPolicy) (s : State)
    → Fails (register_shinzo_policy text k env m s) s ⊎ IsProposed text k env m s
unfolding register_shinzo_policy
register_shinzo_policy_cases text k env m s = elim (require_admin_cases k m.signer s) [
  | inl (a, q) ↦ inl (Error.unauthorized, rw q)
  | inr (a, q₁) ↦ elim (reads_Ends (open_channel env s) s (open_channel_reads env s)) [
    | inl (e, q) ↦ inl (e, rw (q₁, q))
    | inr (ch, q₂) ↦ elim (send_message_cases env ch (create_policy ch.account text yaml) s) [
      | inl (e, q) ↦ inl (e, rw (q₁, q₂, q))
      | inr (bz, i, q₃) ↦ inr (record {
        admin = a;
        channel = ch;
        opened = q₂;
        packet = bz;
        is_message = i;
        result = rw (q₁, q₂, q₃);
      })
    ]
  ]
]

-- The message that makes a DID a subscriber of a stream.
abbrev pub subscriber_message : Channel → Bytes → Bytes → MsgRequestStreamAccess → AcpMsg
subscriber_message ch policy resource m =
    direct_policy_cmd ch.account policy
      (set_relationship (actor_relationship resource m.stream_id (codes "subscriber") m.did))

-- An access that was granted: the packet was sent, and the event emitted.
pub record IsGranted (k : Keeper) (env : Env) (m : MsgRequestStreamAccess) (s : State)
    : Type 0 where
  pub admin : is_admin k m.signer s ≡ true
  pub channel : Channel
  pub opened : open_channel env s ≡ (ok channel, s)
  pub policy : Bytes
  pub has_policy : require_policy_id s ≡ (ok policy, s)
  pub resource : Bytes
  pub is_resource : resource_name (uint_of_int32 m.resource) ≡ some resource
  pub packet : Bytes
  pub is_message : IsMessage env channel (subscriber_message channel policy resource m) packet
  pub result :
      request_stream_access k env m s
      ≡ (ok tt, emit (access_event m) (after_packet env channel packet s))

require_resource_cases :
    (r : ℕ) (s : State)
    → Fails (require_resource r s) s
      ⊎ ((name : Bytes) × (resource_name (uint_of_int32 r) ≡ some name)
          × (require_resource r s ≡ (ok name, s)))
unfolding require_resource
require_resource_cases r s = elim (Option-cases (resource_name (uint_of_int32 r))) [
  | inl q ↦ inl (Error.invalid_resource r, rw q)
  | inr (name, q) ↦ inr (name, q, rw q)
]

pub request_stream_access_cases :
    (k : Keeper) (env : Env) (m : MsgRequestStreamAccess) (s : State)
    → Fails (request_stream_access k env m s) s ⊎ IsGranted k env m s
unfolding request_stream_access
request_stream_access_cases k env m s = elim (require_admin_cases k m.signer s) [
  | inl (a, q) ↦ inl (Error.unauthorized, rw q)
  | inr (a, q₁) ↦ elim (reads_Ends (open_channel env s) s (open_channel_reads env s)) [
    | inl (e, q) ↦ inl (e, rw (q₁, q))
    | inr (ch, q₂) ↦ elim (reads_Ends (require_policy_id s) s (require_policy_id_reads s)) [
      | inl (e, q) ↦ inl (e, rw (q₁, q₂, q))
      | inr (policy, q₃) ↦ elim (require_resource_cases m.resource s) [
        | inl (e, q) ↦ inl (e, rw (q₁, q₂, q₃, q))
        | inr (name, n, q₄) ↦
            elim (send_message_cases env ch (subscriber_message ch policy name m) s) [
              | inl (e, q) ↦ inl (e, rw (q₁, q₂, q₃, q₄, q))
              | inr (bz, i, q₅) ↦ inr (record {
                admin = a;
                channel = ch;
                opened = q₂;
                policy = policy;
                has_policy = q₃;
                resource = name;
                is_resource = n;
                packet = bz;
                is_message = i;
                result = rw (q₁, q₂, q₃, q₄, q₅);
              })
            ]
      ]
    ]
  ]
]
