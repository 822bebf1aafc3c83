-- ===== src/Sourcehub/Packets.antt =====
-- The steps that every call to SourceHub goes through: the interchain account's channel, the policy,
-- and the packet (the same lines of keeper.go and of the msg_server files of x/sourcehub/keeper).
pub mod Outcome
use shinzohub.Prelude.{
  ℕ, Bytes, List, [], ◌∷◌, ◌++◌, ◌+◌, ◌*◌, ◌%◌, ◌^◌, Result, ok, err, map_err, pure, lift, gets,
  guard, modify, ◌>>=◌, ◌>>◌, not, codes, is_empty,
}
use shinzohub.Acp.{AcpMsg, direct_policy_cmd, PolicyCmd}
use shinzohub.Sourcehub.State.{State, Env, Any, PacketData, execute_tx, sent, LibError, Error, M}
use shinzohub.Sourcehub.Keeper.{get_controller_connection_id, get_policy_id}

-- The connection, the port, and the interchain account's address on the host chain.
pub record Channel : Type 0 where
  pub connection : Bytes
  pub port : Bytes
  pub account : Bytes

-- `fmt.Sprintf("icacontroller-%s", types.ModuleAddress.String())`
abbrev pub port_id : Env → Bytes
port_id env = codes "icacontroller-" ++ env.module_address

unfoldable pub open_channel : Env → M Channel
unfolding get_controller_connection_id
open_channel env = do
  connection ← gets get_controller_connection_id
  guard (not (is_empty connection)) Error.no_connection_id
  let account = (env.ica_address connection (port_id env)).0
  guard (not (is_empty account)) (Error.ica_address_not_found (port_id env) connection)
  pure (record { connection = connection; port = port_id env; account = account })

unfoldable pub require_policy_id : M Bytes
unfolding get_policy_id
require_policy_id = do
  policy ← gets get_policy_id
  guard (not (is_empty policy)) Error.no_policy_id
  pure policy

-- Five minutes after the block, in nanoseconds, as a `uint64`.
abbrev pub timeout : Env → ℕ
timeout env = (env.block_time + 5 * 60 * 1000000000) % 2 ^ 64

-- `IcaCtrlKeeper.SendTx`; an accepted packet is recorded.
unfoldable pub send_tx : Env → (LibError → Error) → Channel → PacketData → M (Unit {0})
send_tx env wrap ch packet s = elim (env.send_tx ch.connection ch.port packet (timeout env)) [
  | ok sequence ↦
      (ok tt, record s { calls = s.calls ++ sent ch.connection ch.port packet (timeout env) ∷ [] })
  | err e ↦ (err (wrap e), s)
]

-- From `cosmosTx` to `SendTx`.
unfoldable pub send_messages :
    Env → (LibError → Error) → (LibError → Error) → Channel → List Any → M (Unit {0})
unfolding send_tx
send_messages env wrap_marshal wrap_send ch messages = do
  bz ← lift (map_err wrap_marshal (env.marshal_tx messages))
  send_tx env wrap_send ch (execute_tx bz [])

-- One message, with the errors passed on as they are.
unfoldable pub send_message : Env → Channel → AcpMsg → M (Unit {0})
send_message env ch msg = do
  any ← lift (map_err Error.library (env.new_any msg))
  send_messages env Error.library Error.library ch (any ∷ [])
