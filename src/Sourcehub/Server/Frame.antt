-- ===== src/Sourcehub/Server/Frame.antt =====
-- What the message handlers and `RegisterObject` leave alone: whatever does not look at the recorded
-- calls, the events and the two connection ids.
use shinzohub.Prelude.{Bytes, List, inl, inr}
use shinzohub.Sourcehub.State.{State, Env, IcaCall, Event}
use shinzohub.Sourcehub.Keeper.{Keeper, set_controller_connection_id, set_host_connection_id}
use shinzohub.Sourcehub.Registration.{register_object}
use shinzohub.Sourcehub.Registration.Outcome.{register_object_cases}
use shinzohub.Sourcehub.Messages.{
  MsgRegisterSourcehubIca, MsgRegisterShinzoPolicy, MsgRegisterShinzoObjects,
  MsgRequestStreamAccess,
}
use shinzohub.Sourcehub.Server.{
  register_sourcehub_ica, register_shinzo_policy, register_shinzo_objects, request_stream_access,
  emit, Msg, handle,
}
use shinzohub.Sourcehub.Server.Outcome.{
  register_sourcehub_ica_cases, register_shinzo_policy_cases, request_stream_access_cases,
}
use shinzohub.Sourcehub.Server.Objects.{register_shinzo_objects_cases}

pub record IsStable (P : State → Type 0) : Type 0 where
  pub calls : (s : State) (cs : List IcaCall) → P s → P (record s { calls = cs })
  pub events : (s : State) (es : List Event) → P s → P (record s { events = es })
  pub controller : (s : State) (id : Bytes) → P s → P (set_controller_connection_id id s)
  pub host : (s : State) (id : Bytes) → P s → P (set_host_connection_id id s)

module _ (P : State → Type 0) (stable : IsStable P) where
  register_sourcehub_ica-keeps :
      (k : Keeper) (env : Env) (m : MsgRegisterSourcehubIca) (s : State)
      → P s
      → P (register_sourcehub_ica k env m s).1
  register_sourcehub_ica-keeps k env m s h =
      let g =
        stable.host _ m.host_connection_id (stable.controller s m.controller_connection_id h) in
      elim (register_sourcehub_ica_cases k env m s) [
        | inl (a, q) ↦ rw q h
        | inr (a, inl (e, q)) ↦ rw q g
        | inr (a, inr q) ↦ rw q (stable.calls _ _ g)
      ]

  register_shinzo_policy-keeps :
      (text : Bytes) (k : Keeper) (env : Env) (m : MsgRegisterShinzoPolicy) (s : State)
      → P s
      → P (register_shinzo_policy text k env m s).1
  register_shinzo_policy-keeps text k env m s h =
      elim (register_shinzo_policy_cases text k env m s) [
        | inl (e, q) ↦ rw q h
        | inr d ↦ rw (d.result) (stable.calls _ _ h)
      ]

  register_shinzo_objects-keeps :
      (k : Keeper) (env : Env) (m : MsgRegisterShinzoObjects) (s : State)
      → P s
      → P (register_shinzo_objects k env m s).1
  register_shinzo_objects-keeps k env m s h = elim (register_shinzo_objects_cases k env m s) [
    | inl (e, q) ↦ rw q h
    | inr d ↦ rw (d.result) (stable.calls _ _ h)
  ]

  request_stream_access-keeps :
      (k : Keeper) (env : Env) (m : MsgRequestStreamAccess) (s : State)
      → P s
      → P (request_stream_access k env m s).1
  unfolding emit
  request_stream_access-keeps k env m s h = elim (request_stream_access_cases k env m s) [
    | inl (e, q) ↦ rw q h
    | inr d ↦ rw (d.result) (stable.events _ _ (stable.calls _ _ h))
  ]

  -- No message touches what is stable.
  pub handle-keeps :
      (text : Bytes) (k : Keeper) (env : Env) (m : Msg) (s : State)
      → P s
      → P (handle text k env m s).1
  unfolding handle
  handle-keeps text k env (Msg.sourcehub_ica m) s h = register_sourcehub_ica-keeps k env m s h
  handle-keeps text k env (Msg.shinzo_policy m) s h = register_shinzo_policy-keeps text k env m s h
  handle-keeps text k env (Msg.shinzo_objects m) s h = register_shinzo_objects-keeps k env m s h
  handle-keeps text k env (Msg.stream_access m) s h = request_stream_access-keeps k env m s h

  pub register_object-keeps :
      (env : Env) (id : Bytes) (s : State) → P s → P (register_object env id s).1
  register_object-keeps env id s h = elim (register_object_cases env id s) [
    | inl (e, q) ↦ rw q h
    | inr d ↦ rw (d.result) (stable.calls _ _ h)
  ]
