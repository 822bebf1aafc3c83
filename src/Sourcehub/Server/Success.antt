-- ===== src/Sourcehub/Server/Success.antt =====
-- When the handlers of x/sourcehub/keeper/msg_server_*.go succeed.
use shinzohub.Prelude.{Bytes, some, ◌≡◌, ok, refl}
use shinzohub.Sourcehub.State.{State, Env}
use shinzohub.Sourcehub.Keeper.{Keeper}
use shinzohub.Sourcehub.Packets.{Channel, open_channel, require_policy_id}
use shinzohub.Sourcehub.Packets.Outcome.{IsMessage, after_packet, send_message-ok}
use shinzohub.Sourcehub.Messages.{MsgRequestStreamAccess}
use shinzohub.Sourcehub.Server.{
  require_admin, uint_of_int32, resource_name, require_resource, access_event, emit,
  request_stream_access,
}
use shinzohub.Sourcehub.Server.Outcome.{subscriber_message}
use shinzohub.Sourcehub.Server.Access.{MayAdminister, is_admin_iff}

require_admin-ok :
    (k : Keeper) (a : Bytes) (s : State) → MayAdminister k a s → require_admin k a s ≡ (ok tt, s)
unfolding require_admin
require_admin-ok k a s may = rw ((is_admin_iff k a s).1 may) refl

-- `RequestStreamAccess` succeeds, with one packet recorded that makes the DID a subscriber and with
-- the event emitted, when the signer is the authority or the admin, the channel and the policy are
-- set, the resource is a primitive or a view, and the packet is accepted.
pub request_stream_access-ok :
    (k : Keeper) (env : Env) (m : MsgRequestStreamAccess) (s : State) (ch : Channel)
    (policy resource packet : Bytes)
    → MayAdminister k m.signer s
    → open_channel env s ≡ (ok ch, s)
    → require_policy_id s ≡ (ok policy, s)
    → resource_name (uint_of_int32 m.resource) ≡ some resource
    → IsMessage env ch (subscriber_message ch policy resource m) packet
    → request_stream_access k env m s
      ≡ (ok tt, emit (access_event m) (after_packet env ch packet s))
unfolding request_stream_access require_resource
request_stream_access-ok k env m s ch policy resource packet may o q r i =
    rw
      (
        require_admin-ok k m.signer s may,
        o,
        q,
        r,
        send_message-ok env ch (subscriber_message ch policy resource m) packet s i,
      )
      refl
