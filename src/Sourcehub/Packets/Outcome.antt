-- ===== src/Sourcehub/Packets/Outcome.antt =====
-- How the steps before a packet end, and what sending one changes.
use shinzohub.Prelude.{
  ℕ, Bytes, List, [], ◌∷◌, ◌++◌, ◌≡◌, ◌⊎◌, inl, inr, ok, err, Result-cases, arith,
}
use shinzohub.Acp.{AcpMsg}
use shinzohub.Sourcehub.State.{State, Env, Any, execute_tx, sent, LibError, Error}
use shinzohub.Sourcehub.Packets.{
  Channel, open_channel, require_policy_id, timeout, send_tx, send_messages, send_message,
}

pub open_channel_reads : (env : Env) (s : State) → (open_channel env s).1 ≡ s
unfolding open_channel
open_channel_reads env s = ground arith

pub require_policy_id_reads : (s : State) → (require_policy_id s).1 ≡ s
unfolding require_policy_id
require_policy_id_reads s = ground arith

-- The state after a packet with the messages `anys` was accepted.
abbrev pub after_packet : Env → Channel → Bytes → State → State
after_packet env ch bz s = record s {
  calls = s.calls ++ sent ch.connection ch.port (execute_tx bz []) (timeout env) ∷ [];
}

-- The bytes of a packet are the marshalled messages, and the controller has accepted it.
pub record IsSent (env : Env) (ch : Channel) (anys : List Any) (bz : Bytes) : Type 0 where
  pub marshalled : env.marshal_tx anys ≡ ok bz
  pub sequence : ℕ
  pub accepted : env.send_tx ch.connection ch.port (execute_tx bz []) (timeout env) ≡ ok sequence

-- Sending fails and changes nothing, or one packet has been accepted.
pub send_messages_cases :
    (env : Env) (wm ws : LibError → Error) (ch : Channel) (anys : List Any) (s : State)
    → ((e : Error) × (send_messages env wm ws ch anys s ≡ (err e, s)))
      ⊎ ((bz : Bytes) × IsSent env ch anys bz
          × (send_messages env wm ws ch anys s ≡ (ok tt, after_packet env ch bz s)))
unfolding send_messages
send_messages_cases env wm ws ch anys s = elim (Result-cases (env.marshal_tx anys)) [
  | inl (e, p) ↦ inl (wm e, rw p)
  | inr (bz, p) ↦
      elim (Result-cases (env.send_tx ch.connection ch.port (execute_tx bz []) (timeout env))) [
        | inl (e, q) ↦ inl (ws e, rw (p, q, send_tx))
        | inr (n, q) ↦
            inr (bz, record { marshalled = p; sequence = n; accepted = q }, rw (p, q, send_tx))
      ]
]

pub record IsMessage (env : Env) (ch : Channel) (msg : AcpMsg) (bz : Bytes) : Type 0 where
  pub any : Any
  pub wrapped : env.new_any msg ≡ ok any
  pub is_sent : IsSent env ch (any ∷ []) bz

pub send_message_cases :
    (env : Env) (ch : Channel) (msg : AcpMsg) (s : State)
    → ((e : Error) × (send_message env ch msg s ≡ (err e, s)))
      ⊎ ((bz : Bytes) × IsMessage env ch msg bz
          × (send_message env ch msg s ≡ (ok tt, after_packet env ch bz s)))
unfolding send_message
send_message_cases env ch msg s = elim (Result-cases (env.new_any msg)) [
  | inl (e, p) ↦ inl (Error.library e, rw p)
  | inr (any, p) ↦ elim (send_messages_cases env Error.library Error.library ch (any ∷ []) s) [
    | inl (e, q) ↦ inl (e, rw (p, q))
    | inr (bz, i, q) ↦ inr (bz, record { any = any; wrapped = p; is_sent = i }, rw (p, q))
  ]
]

-- A message whose packet is accepted is sent.
pub send_message-ok :
    (env : Env) (ch : Channel) (msg : AcpMsg) (bz : Bytes) (s : State)
    → IsMessage env ch msg bz
    → send_message env ch msg s ≡ (ok tt, after_packet env ch bz s)
unfolding send_message send_messages
send_message-ok env ch msg bz s i =
    rw (i.wrapped, i.is_sent.marshalled, i.is_sent.accepted, send_tx)
