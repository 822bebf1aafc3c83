-- ===== src/Registrar/Service.antt =====
-- The HTTP service: acpapi/registrar.go, pkg/validators/registrarValidator.go,
-- pkg/utils/jsonHandler.go and the routes of pkg/registrar/service.go.
pub mod Outcome
use shinzohub.Prelude.{
  ℕ, Bytes, Bool, true, false, Option, none, some, List, [], ◌∷◌, Result, ok, err, check, lift,
  ◌>>=◌, ◌>>◌, codes, is_empty, not, same, if◌then◌else◌,
}
use shinzohub.Sourcehub.State.{LibError}
use shinzohub.Registrar.Client.{ClientError, Net, N}
use shinzohub.Registrar.Feeds
use shinzohub.Registrar.Feeds.{AcpClient, add_to_group, block_from_group, give_query_access}

unfoldable pub validate_did : Bytes → Result ClientError (Unit {0})
validate_did did = check (not (is_empty did)) ClientError.empty_did

unfoldable pub validate_data_feed_id : Bytes → Result ClientError (Unit {0})
validate_data_feed_id id = check (not (is_empty id)) ClientError.empty_data_feed_id

abbrev pub indexer_group : Bytes
indexer_group = codes "indexer"

abbrev pub host_group : Bytes
host_group = codes "host"

module _ (acp : AcpClient) where
  unfoldable pub request_indexer_role : Bytes → N (Unit {0})
  request_indexer_role did = do lift (validate_did did); add_to_group acp indexer_group did

  unfoldable pub request_host_role : Bytes → N (Unit {0})
  request_host_role did = do lift (validate_did did); add_to_group acp host_group did

  unfoldable pub block_indexer : Bytes → N (Unit {0})
  block_indexer did = do lift (validate_did did); block_from_group acp indexer_group did

  unfoldable pub block_host : Bytes → N (Unit {0})
  block_host did = do lift (validate_did did); block_from_group acp host_group did

  unfoldable pub subscribe_to_data_feed : Bytes → Bytes → N (Unit {0})
  subscribe_to_data_feed did feed = do
    lift (validate_did did)
    lift (validate_data_feed_id feed)
    give_query_access acp feed did

  unfoldable pub ban_user_from_view : Bytes → Bytes → N (Unit {0})
  ban_user_from_view did feed = do
    lift (validate_did did)
    lift (validate_data_feed_id feed)
    Feeds.ban_user_from_view acp feed did

  unfoldable pub registrar_create_data_feed : Bytes → Bytes → List Bytes → N (Unit {0})
  registrar_create_data_feed did feed parents = do
    lift (validate_did did)
    lift (validate_data_feed_id feed)
    Feeds.create_data_feed acp feed did parents

pub record RegistrarRequest : Type 0 where
  pub did : Bytes
  pub data_feed_id : Bytes
  pub parent_resource_ids : List Bytes

pub record RegistrarResponse : Type 0 where
  pub success : Bool
  -- Absent from the JSON when there is none.
  pub error : Option ClientError

pub data Route : Type 0 where
  request_indexer_role_route request_host_role_route block_indexer_route block_host_route : Route
  subscribe_to_data_feed_route ban_user_from_resource_route create_data_feed_route : Route

-- The path of a request, without the prefix `/registrar`.
unfoldable pub route_of : Bytes → Option Route
route_of path =
    if same path (codes "/request-indexer-role")
    then some request_indexer_role_route
    else if same path (codes "/request-host-role")
    then some request_host_role_route
    else if same path (codes "/block-indexer")
    then some block_indexer_route
    else if same path (codes "/block-host")
    then some block_host_route
    else if same path (codes "/subscribe-to-data-feed")
    then some subscribe_to_data_feed_route
    else if same path (codes "/ban-user-from-resource")
    then some ban_user_from_resource_route
    else if same path (codes "/create-data-feed")
    then some create_data_feed_route
    else none

-- What the function of the route calls.
unfoldable pub call_route : AcpClient → Route → RegistrarRequest → N (Unit {0})
call_route acp request_indexer_role_route req = request_indexer_role acp req.did
call_route acp request_host_role_route req = request_host_role acp req.did
call_route acp block_indexer_route req = block_indexer acp req.did
call_route acp block_host_route req = block_host acp req.did
call_route acp subscribe_to_data_feed_route req =
    subscribe_to_data_feed acp req.did req.data_feed_id
call_route acp ban_user_from_resource_route req = ban_user_from_view acp req.did req.data_feed_id
call_route acp create_data_feed_route req =
    registrar_create_data_feed acp req.did req.data_feed_id req.parent_resource_ids

-- What is written back: the status and the body. The body of a request that is no JSON is fixed, and
-- the one of an unknown path is the server's.
pub data Reply : Type 0 where
  invalid_request not_found : ℕ → Reply
  json : ℕ → RegistrarResponse → Reply

unfoldable pub reply_of : Result ClientError (Unit {0}) × Net → Reply × Net
reply_of (ok u, net) = (json 200 (record { success = true; error = none }), net)
reply_of (err e, net) = (json 400 (record { success = false; error = some e }), net)

-- `JSONHandler`, on the request that the decoder gives for the body.
unfoldable pub json_handler :
    AcpClient → Route → Result LibError RegistrarRequest → Net → Reply × Net
json_handler acp route (err e) net = (invalid_request 400, net)
json_handler acp route (ok req) net = reply_of (call_route acp route req net)

unfoldable pub serve :
    (Bytes → Result LibError RegistrarRequest) → AcpClient → Bytes → Bytes → Net → Reply × Net
serve decode acp path body net = elim (route_of path) [
  | none ↦ (not_found 404, net)
  | some route ↦ json_handler acp route (decode body) net
]
