-- ===== src/Registrar/Service/Outcome.antt =====
-- What a request to pkg/registrar/service.go changes, and how it is answered.
use shinzohub.Prelude.{
  codes, ◌∷◌, ◌++◌, ◌>>◌, Option-cases, arith, Bytes, false, none, some, List, [], ok, err, Result,
  Result-cases, ◌≡◌, refl, inl, inr, lift,
}
use shinzohub.Sourcehub.State.{LibError}
use shinzohub.Acp.{PolicyCmd, set_relationship, actor_relationship}
use shinzohub.Registrar.Client.{
  Hub, AcpGoClient, Net, ClientError, N, set_actor_relationship, execute_policy_commands,
}
use shinzohub.Registrar.Client.Outcome.{Executes, execute_policy_commands_cases}
use shinzohub.Registrar.Parents.{parent_commands}
use shinzohub.Registrar.Feeds.{
  AcpClient, acp_client, add_to_group, block_from_group, give_query_access, create_data_feed,
  creator_command,
}
use shinzohub.Registrar.Feeds
use shinzohub.Registrar.Service.{
  indexer_group, host_group, RegistrarRequest, RegistrarResponse, Route, route_of, call_route, json,
  reply_of, json_handler, serve, validate_did, validate_data_feed_id, request_indexer_role,
  request_host_role, block_indexer, block_host, subscribe_to_data_feed, ban_user_from_view,
  registrar_create_data_feed, request_indexer_role_route, request_host_role_route,
  block_indexer_route, block_host_route, subscribe_to_data_feed_route, ban_user_from_resource_route,
  create_data_feed_route,
}

refused :
    (acp : AcpClient) (route : Route) (req : RegistrarRequest) (s : Net)
    → req.did ≡ []
    → reply_of (call_route acp route req s)
      ≡ (json 400 (record { success = false; error = some ClientError.empty_did }), s)
unfolding reply_of call_route request_indexer_role request_host_role block_indexer block_host
    subscribe_to_data_feed ban_user_from_view registrar_create_data_feed validate_did
refused acp request_indexer_role_route req s e = rw e refl
refused acp request_host_role_route req s e = rw e refl
refused acp block_indexer_route req s e = rw e refl
refused acp block_host_route req s e = rw e refl
refused acp subscribe_to_data_feed_route req s e = rw e refl
refused acp ban_user_from_resource_route req s e = rw e refl
refused acp create_data_feed_route req s e = rw e refl

-- A request without a DID is refused on every route with status 400, before any call to SourceHub.
pub serve-empty_did :
    (decode : Bytes → Result LibError RegistrarRequest) (acp : AcpClient) (path body : Bytes)
    (route : Route) (req : RegistrarRequest) (s : Net)
    → route_of path ≡ some route
    → decode body ≡ ok req
    → req.did ≡ []
    → serve decode acp path body s
      ≡ (json 400 (record { success = false; error = some ClientError.empty_did }), s)
unfolding serve json_handler
serve-empty_did decode acp path body route req s r d e =
    rw (serve, r, d, json_handler) (refused acp route req s e)

-- SourceHub took in one transaction on top of those before, and executed it.
pub IsConfirmed : Hub → Net → Net → Type 0
IsConfirmed hub s t =
    (tx : Bytes) × (hash : Bytes) × (hub.broadcast_tx tx ≡ ok hash)
    × (hub.await_tx hash ≡ ok none)
    × (t.broadcasts ≡ s.broadcasts ++ tx ∷ [])

abbrev Confirmed : Hub → Net → Result ClientError (Unit {0}) × Net → Type 0
Confirmed hub s r = r.0 ≡ ok tt → IsConfirmed hub s r.1

execute-Confirmed :
    (hub : Hub) (client : AcpGoClient) (cmds : List PolicyCmd)
    (decorate : ClientError → ClientError) (s : Net)
    → Confirmed hub s (execute_policy_commands hub client cmds decorate s)
unfolding Executes IsConfirmed
execute-Confirmed hub client cmds decorate s h =
    elim (execute_policy_commands_cases hub client cmds decorate s) [
      | inl (e, p) ↦ absurd (cc (p, h))
      | inr (messages, signed, size, sent, done) ↦
          (sent.tx, sent.hash, sent.accepted, done.0 h, sent.recorded)
    ]

set-Confirmed :
    (hub : Hub) (client : AcpGoClient) (resource_type name relation did : Bytes) (s : Net)
    → Confirmed hub s (set_actor_relationship hub client resource_type name relation did s)
unfolding set_actor_relationship
set-Confirmed hub client resource_type name relation did s =
    execute-Confirmed hub client
      (set_relationship (actor_relationship resource_type name relation did) ∷ [])
      (ClientError.relationship_failed relation resource_type name) s

-- The check of the DID comes first, then the one of the feed: if one fails, the call fails.
did-Confirmed :
    (hub : Hub) (did : Bytes) (call : N (Unit {0})) (s : Net)
    → Confirmed hub s (call s)
    → Confirmed hub s ((lift (validate_did did) >> call) s)
unfolding validate_did
did-Confirmed hub [] call s f h = absurd (cc)
did-Confirmed hub (c ∷ did) call s f h = f h

feed_id-Confirmed :
    (hub : Hub) (feed : Bytes) (call : N (Unit {0})) (s : Net)
    → Confirmed hub s (call s)
    → Confirmed hub s ((lift (validate_data_feed_id feed) >> call) s)
unfolding validate_data_feed_id
feed_id-Confirmed hub [] call s f h = absurd (cc)
feed_id-Confirmed hub (c ∷ feed) call s f h = f h

feed-Confirmed :
    (hub : Hub) (client : AcpGoClient) (document did : Bytes) (ids : List Bytes) (s : Net)
    → Confirmed hub s (create_data_feed (acp_client hub client) document did ids s)
unfolding create_data_feed acp_client
feed-Confirmed hub client document did [] s = λ h. absurd (cc)
feed-Confirmed hub client document did (id ∷ ids) s =
    elim (Result-cases (parent_commands document [] (id ∷ ids))) [
      | inl (e, p) ↦ rw p (λ h. absurd (cc))
      | inr (parents, p) ↦ rw p (
          execute-Confirmed hub client (creator_command document did ∷ parents)
            (ClientError.create_data_feed_failed document did) s)
    ]

call_route-Confirmed :
    (hub : Hub) (client : AcpGoClient) (route : Route) (req : RegistrarRequest) (s : Net)
    → Confirmed hub s (call_route (acp_client hub client) route req s)
unfolding call_route request_indexer_role request_host_role block_indexer block_host
    subscribe_to_data_feed ban_user_from_view registrar_create_data_feed add_to_group
    block_from_group give_query_access Feeds.ban_user_from_view acp_client
call_route-Confirmed hub client request_indexer_role_route req s =
    did-Confirmed hub req.did (add_to_group (acp_client hub client) indexer_group req.did) s
      (set-Confirmed hub client (codes "group") indexer_group (codes "guest") req.did s)
call_route-Confirmed hub client request_host_role_route req s =
    did-Confirmed hub req.did (add_to_group (acp_client hub client) host_group req.did) s
      (set-Confirmed hub client (codes "group") host_group (codes "guest") req.did s)
call_route-Confirmed hub client block_indexer_route req s =
    did-Confirmed hub req.did (block_from_group (acp_client hub client) indexer_group req.did) s
      (set-Confirmed hub client (codes "group") indexer_group (codes "blocked") req.did s)
call_route-Confirmed hub client block_host_route req s =
    did-Confirmed hub req.did (block_from_group (acp_client hub client) host_group req.did) s
      (set-Confirmed hub client (codes "group") host_group (codes "blocked") req.did s)
call_route-Confirmed hub client subscribe_to_data_feed_route req s =
    let call = give_query_access (acp_client hub client) req.data_feed_id req.did in
    did-Confirmed hub req.did (lift (validate_data_feed_id req.data_feed_id) >> call) s (
      feed_id-Confirmed hub req.data_feed_id call s
        (set-Confirmed hub client (codes "view") req.data_feed_id (codes "subscriber") req.did s))
call_route-Confirmed hub client ban_user_from_resource_route req s =
    let call = Feeds.ban_user_from_view (acp_client hub client) req.data_feed_id req.did in
    did-Confirmed hub req.did (lift (validate_data_feed_id req.data_feed_id) >> call) s (
      feed_id-Confirmed hub req.data_feed_id call s
        (set-Confirmed hub client (codes "view") req.data_feed_id (codes "banned") req.did s))
call_route-Confirmed hub client create_data_feed_route req s =
    let call =
      create_data_feed (acp_client hub client) req.data_feed_id req.did req.parent_resource_ids in
    did-Confirmed hub req.did (lift (validate_data_feed_id req.data_feed_id) >> call) s (
      feed_id-Confirmed hub req.data_feed_id call s
        (feed-Confirmed hub client req.data_feed_id req.did req.parent_resource_ids s))

reply-Confirmed :
    (hub : Hub) (s : Net) (r : Result ClientError (Unit {0}) × Net) (body : RegistrarResponse)
    → Confirmed hub s r
    → (reply_of r).0 ≡ json 200 body
    → IsConfirmed hub s (reply_of r).1
unfolding reply_of
reply-Confirmed hub s (ok u, t) body f h = f refl
reply-Confirmed hub s (err e, t) body f h = absurd (ground arith)

json-Confirmed :
    (hub : Hub) (client : AcpGoClient) (route : Route) (req : Result LibError RegistrarRequest)
    (response : RegistrarResponse) (s : Net)
    → (json_handler (acp_client hub client) route req s).0 ≡ json 200 response
    → IsConfirmed hub s (json_handler (acp_client hub client) route req s).1
unfolding json_handler
json-Confirmed hub client route (err e) response s h = absurd (ground arith)
json-Confirmed hub client route (ok req) response s h =
    reply-Confirmed hub s _ response (call_route-Confirmed hub client route req s) h

-- A request that is answered with status 200 has changed SourceHub by exactly one transaction, which
-- SourceHub took in and executed.
pub serve-IsConfirmed :
    (decode : Bytes → Result LibError RegistrarRequest) (hub : Hub) (client : AcpGoClient)
    (path body : Bytes) (response : RegistrarResponse) (s : Net)
    → (serve decode (acp_client hub client) path body s).0 ≡ json 200 response
    → IsConfirmed hub s (serve decode (acp_client hub client) path body s).1
unfolding serve
serve-IsConfirmed decode hub client path body response s = elim (Option-cases (route_of path)) [
  | inl p ↦ rw (serve, p) (λ h. absurd (ground arith))
  | inr (route, p) ↦ rw (serve, p) (json-Confirmed hub client route (decode body) response s)
]
