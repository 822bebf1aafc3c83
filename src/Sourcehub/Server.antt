-- ===== src/Sourcehub/Server.antt =====
-- The message server of x/sourcehub/keeper/msg_server_*.go. A handler that returns an error beside an
-- empty response returns just the error here.
pub mod Outcome
pub mod Objects
pub mod Frame
pub mod Access
pub mod Success
use shinzohub.Prelude.{
  ℕ, Bytes, Option, none, some, List, [], ◌∷◌, ◌++◌, ◌+◌, ◌-◌, ◌^◌, ltb, ◌==◌, Result, ok, err,
  and_then, map_err, pure, lift, gets, guard, modify, ◌>>=◌, ◌>>◌, codes, if◌then◌else◌,
}
use shinzohub.Acp.{
  AcpMsg, direct_policy_cmd, create_policy, yaml, register_object, set_relationship, new_object,
  actor_relationship,
}
use shinzohub.Sourcehub.Keys.{
  primitive_resource_name, group_object_name, group_indexer_name, group_host_name,
}
use shinzohub.Sourcehub.State.{
  State, Env, Any, LibError, ordered, registered, Event, event, Error, M,
}
use shinzohub.Sourcehub.Keeper.{
  Keeper, is_admin, set_controller_connection_id, set_host_connection_id,
  get_controller_connection_id, get_ica_metadata,
}
use shinzohub.Sourcehub.Packets.{
  Channel, open_channel, require_policy_id, send_messages, send_message,
}
use shinzohub.Sourcehub.Messages.{
  MsgRegisterSourcehubIca, MsgRegisterShinzoPolicy, MsgRegisterShinzoObjects,
  MsgRequestStreamAccess,
}

unfoldable pub require_admin : Keeper → Bytes → M (Unit {0})
require_admin k signer = do admin ← gets (is_admin k signer); guard admin Error.unauthorized

-- `IcaCtrlKeeper.RegisterInterchainAccount`; an accepted call is recorded.
unfoldable pub register_account : Env → Bytes → Bytes → M (Unit {0})
register_account env connection version s =
    elim (env.register_account connection env.module_address version ordered) [
      | ok u ↦ (
        ok tt,
        record s {
          calls = s.calls ++ registered connection env.module_address version ordered ∷ [];
        },
      )
      | err e ↦ (err (Error.library e), s)
    ]

unfoldable pub register_sourcehub_ica : Keeper → Env → MsgRegisterSourcehubIca → M (Unit {0})
register_sourcehub_ica k env msg = do
  require_admin k msg.signer
  modify (set_controller_connection_id msg.controller_connection_id)
  modify (set_host_connection_id msg.host_connection_id)
  connection ← gets get_controller_connection_id
  version ← gets (get_ica_metadata env)
  register_account env connection version

-- `policy` is the text of the embedded file policy.yaml.
unfoldable pub register_shinzo_policy :
    Bytes → Keeper → Env → MsgRegisterShinzoPolicy → M (Unit {0})
register_shinzo_policy policy k env msg = do
  require_admin k msg.signer
  ch ← open_channel env
  send_message env ch (create_policy ch.account policy yaml)

-- `NewMsgDirectPolicyCmd` of a `NewRegisterObjectCmd`
abbrev pub object_message : Channel → Bytes → Bytes → Bytes → AcpMsg
object_message ch policy resource id =
    direct_policy_cmd ch.account policy (register_object (new_object resource id))

-- The loop over the resources, which appends to `anys`.
unfoldable pub wrap_resources :
    Env → Channel → Bytes → List Any → List Bytes → Result Error (List Any)
wrap_resources env ch policy anys [] = ok anys
wrap_resources env ch policy anys (r ∷ rs) =
    and_then
      (map_err (Error.wrap_primitive r)
        (env.new_any (object_message ch policy primitive_resource_name r)))
      (λ any. wrap_resources env ch policy (anys ++ any ∷ []) rs)

unfoldable pub register_shinzo_objects : Keeper → Env → MsgRegisterShinzoObjects → M (Unit {0})
register_shinzo_objects k env msg = do
  require_admin k msg.signer
  ch ← open_channel env
  policy ← require_policy_id
  anys ← lift (wrap_resources env ch policy [] msg.resources)
  indexer ← lift (
      map_err Error.wrap_group_indexer
        (env.new_any (object_message ch policy group_object_name group_indexer_name)))
  host ← lift (
      map_err Error.wrap_group_host
        (env.new_any (object_message ch policy group_object_name group_host_name)))
  send_messages env Error.marshal_failed Error.send_failed ch ((anys ++ indexer ∷ []) ++ host ∷ [])

-- `uint(r)` of an `int32`, whose sign is extended to 64 bits.
unfoldable pub uint_of_int32 : ℕ → ℕ
uint_of_int32 r = if ltb r (2 ^ 31) then r else r + (2 ^ 64 - 2 ^ 32)

-- The lookup in `resMap`.
unfoldable pub resource_name : ℕ → Option Bytes
resource_name r =
    if r == 0 then some (codes "primitive") else if r == 1 then some (codes "view") else none

unfoldable pub require_resource : ℕ → M Bytes
require_resource r = lift (elim (resource_name (uint_of_int32 r)) [
  | none ↦ err (Error.invalid_resource r)
  | some name ↦ ok name
])

abbrev pub access_event : MsgRequestStreamAccess → Event
access_event msg =
    event (codes "AccessRequestSuccess")
      ((codes "did", msg.did) ∷ (codes "object", msg.stream_id) ∷ [])

unfoldable pub emit : Event → State → State
emit e s = record s { events = s.events ++ e ∷ [] }

unfoldable pub request_stream_access : Keeper → Env → MsgRequestStreamAccess → M (Unit {0})
request_stream_access k env msg = do
  require_admin k msg.signer
  ch ← open_channel env
  policy ← require_policy_id
  resource ← require_resource msg.resource
  send_message env ch (
      direct_policy_cmd ch.account policy
        (set_relationship (actor_relationship resource msg.stream_id (codes "subscriber") msg.did)))
  modify (emit (access_event msg))

-- A message of any of the four types, as the service routes it.
pub data Msg : Type 0 where
  sourcehub_ica : MsgRegisterSourcehubIca → Msg
  shinzo_policy : MsgRegisterShinzoPolicy → Msg
  shinzo_objects : MsgRegisterShinzoObjects → Msg
  stream_access : MsgRequestStreamAccess → Msg

abbrev pub signer_of : Msg → Bytes
signer_of (sourcehub_ica m) = m.signer
signer_of (shinzo_policy m) = m.signer
signer_of (shinzo_objects m) = m.signer
signer_of (stream_access m) = m.signer

unfoldable pub handle : Bytes → Keeper → Env → Msg → M (Unit {0})
handle policy k env (sourcehub_ica m) = register_sourcehub_ica k env m
handle policy k env (shinzo_policy m) = register_shinzo_policy policy k env m
handle policy k env (shinzo_objects m) = register_shinzo_objects k env m
handle policy k env (stream_access m) = request_stream_access k env m
