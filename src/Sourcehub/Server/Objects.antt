-- ===== src/Sourcehub/Server/Objects.antt =====
-- RegisterShinzoObjects (msg_server_register_shinzo_objects.go): one packet holds a message for each
-- resource, in order, and the two for the groups.
use shinzohub.Prelude.{
  Bytes, true, List, [], ◌∷◌, ◌++◌, ◌≡◌, ◌⊎◌, inl, inr, ◌∙◌, ok, err, Fails, Result-cases,
  reads_Ends, map, append_assoc, append-nil, codes,
}
use shinzohub.Acp.{AcpMsg, direct_policy_cmd, register_object, new_object}
use shinzohub.Sourcehub.Keys.{
  primitive_resource_name, group_object_name, group_indexer_name, group_host_name,
}
use shinzohub.Sourcehub.State.{State, Env, Any, Error}
use shinzohub.Sourcehub.Keeper.{Keeper, is_admin}
use shinzohub.Sourcehub.Packets.{Channel, open_channel, require_policy_id}
use shinzohub.Sourcehub.Packets.Outcome.{
  open_channel_reads, require_policy_id_reads, after_packet, IsSent, send_messages_cases,
}
use shinzohub.Sourcehub.Messages.{MsgRegisterShinzoObjects}
use shinzohub.Sourcehub.Server.{object_message, wrap_resources, register_shinzo_objects}
use shinzohub.Sourcehub.Server.Outcome.{require_admin_cases}

-- `anys` are the messages `msgs`, packed one by one.
abbrev pub IsWrapped : Env → List AcpMsg → List Any → Type 0
IsWrapped env [] [] = Unit {0}
IsWrapped env (m ∷ ms) (a ∷ anys) = (env.new_any m ≡ ok a) × IsWrapped env ms anys
IsWrapped env _ _ = ⊥

-- What a registration of `resources` sends: a command for each, as an object of `primitive`, and then
-- those for the two groups.
unfoldable pub objects_messages : Channel → Bytes → List Bytes → List AcpMsg
objects_messages ch policy resources =
    map
      (λ r.
        direct_policy_cmd ch.account policy (register_object (new_object (codes "primitive") r)))
      resources
    ++ direct_policy_cmd ch.account policy
        (register_object (new_object (codes "group") (codes "indexer")))
      ∷ direct_policy_cmd ch.account policy
          (register_object (new_object (codes "group") (codes "host")))
      ∷ []

wrap_resources_cases :
    (env : Env) (ch : Channel) (policy : Bytes) (anys : List Any) (rs : List Bytes)
    → ((e : Error) × (wrap_resources env ch policy anys rs ≡ err e))
      ⊎ ((more : List Any) × IsWrapped env
            (map (object_message ch policy primitive_resource_name) rs)
            more
          × (wrap_resources env ch policy anys rs ≡ ok (anys ++ more)))
unfolding wrap_resources
wrap_resources_cases env ch policy anys [] = inr ([], tt, rw append-nil)
wrap_resources_cases env ch policy anys (r ∷ rs) =
    elim (Result-cases (env.new_any (object_message ch policy primitive_resource_name r))) [
      | inl (e, q) ↦ inl (Error.wrap_primitive r e, rw q)
      | inr (any, q) ↦ elim (wrap_resources_cases env ch policy (anys ++ any ∷ []) rs) [
        | inl (e, p) ↦ inl (e, rw q p)
        | inr (more, w, p) ↦ inr (any ∷ more, (q, w), rw q (p ∙ rw append_assoc))
      ]
    ]

IsWrapped-append :
    (env : Env) (ms ns : List AcpMsg) (xs ys : List Any)
    → IsWrapped env ms xs
    → IsWrapped env ns ys
    → IsWrapped env (ms ++ ns) (xs ++ ys)
IsWrapped-append env [] ns [] ys h k = k
IsWrapped-append env [] ns (a ∷ xs) ys h k = absurd h
IsWrapped-append env (m ∷ ms) ns [] ys h k = absurd h
IsWrapped-append env (m ∷ ms) ns (a ∷ xs) ys h k = (h.0, IsWrapped-append env ms ns xs ys h.1 k)

pub record IsObjectsSent (k : Keeper) (env : Env) (m : MsgRegisterShinzoObjects) (s : State)
    : Type 0 where
  pub admin : is_admin k m.signer s ≡ true
  pub channel : Channel
  pub opened : open_channel env s ≡ (ok channel, s)
  pub policy : Bytes
  pub has_policy : require_policy_id s ≡ (ok policy, s)
  pub anys : List Any
  pub is_wrapped : IsWrapped env (objects_messages channel policy m.resources) anys
  pub packet : Bytes
  pub is_sent : IsSent env channel anys packet
  pub result : register_shinzo_objects k env m s ≡ (ok tt, after_packet env channel packet s)

-- `RegisterShinzoObjects` either fails and leaves the state as it was, or the signer is an admin and
-- one packet was accepted, which registers each resource of the message as a `primitive`, in order,
-- and then the groups `indexer` and `host`, and just this call is recorded.
pub register_shinzo_objects_cases :
    (k : Keeper) (env : Env) (m : MsgRegisterShinzoObjects) (s : State)
    → Fails (register_shinzo_objects k env m s) s ⊎ IsObjectsSent k env m s
unfolding register_shinzo_objects objects_messages
register_shinzo_objects_cases k env m s = elim (require_admin_cases k m.signer s) [
  | inl (a, q) ↦ inl (Error.unauthorized, rw q)
  | inr (a, q₁) ↦ elim (reads_Ends (open_channel env s) s (open_channel_reads env s)) [
    | inl (e, q) ↦ inl (e, rw (q₁, q))
    | inr (ch, q₂) ↦ elim (reads_Ends (require_policy_id s) s (require_policy_id_reads s)) [
      | inl (e, q) ↦ inl (e, rw (q₁, q₂, q))
      | inr (policy, q₃) ↦ elim (wrap_resources_cases env ch policy [] m.resources) [
        | inl (e, q) ↦ inl (e, rw (q₁, q₂, q₃, q))
        | inr (anys, w, q₄) ↦
            elim (Result-cases
              (env.new_any (object_message ch policy group_object_name group_indexer_name))) [
                | inl (e, q) ↦ inl (Error.wrap_group_indexer e, rw (q₁, q₂, q₃, q₄, q))
                | inr (indexer, q₅) ↦
                    elim (Result-cases
                      (env.new_any (object_message ch policy group_object_name group_host_name))) [
                        | inl (e, q) ↦ inl (Error.wrap_group_host e, rw (q₁, q₂, q₃, q₄, q₅, q))
                        | inr (host, q₆) ↦
                            elim (send_messages_cases env Error.marshal_failed Error.send_failed ch
                              ((anys ++ indexer ∷ []) ++ host ∷ []) s) [
                                | inl (e, q) ↦ inl (e, rw (q₁, q₂, q₃, q₄, q₅, q₆, q))
                                | inr (bz, i, q₇) ↦ inr (record {
                                  admin = a;
                                  channel = ch;
                                  opened = q₂;
                                  policy = policy;
                                  has_policy = q₃;
                                  anys = (anys ++ indexer ∷ []) ++ host ∷ [];
                                  is_wrapped = rw append_assoc (
                                      IsWrapped-append env _ _ anys (indexer ∷ host ∷ []) w
                                        (q₅, (q₆, tt)));
                                  packet = bz;
                                  is_sent = i;
                                  result = rw (q₁, q₂, q₃, q₄, q₅, q₆, q₇);
                                })
                              ]
                      ]
              ]
      ]
    ]
  ]
]
