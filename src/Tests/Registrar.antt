-- ===== src/Tests/Registrar.antt =====
-- The theorems on the registrar, pkg/sourcehub and pkg/registrar, with a hub that accepts everything.
use shinzohub.Prelude.{
  Bytes, true, false, none, List, [], ◌∷◌, Result, ok, same, codes, ◌≡◌, ◌↔◌, refl,
}
use shinzohub.Sourcehub.State.{LibError}
use shinzohub.Acp.{
  PolicyCmd, register_object, new_object, set_relationship, actor_relationship, relationship,
}
use shinzohub.Registrar.Client.{
  Hub, Net, AcpGoClient, ClientError, execute_policy_commands, set_actor_relationship,
  send_and_confirm_tx, broadcast_tx, sign_commands, sign_command,
}
use shinzohub.Registrar.Parents.{
  HasNoColon, parent_id, parse_parent, parse_parent_iff, split_colon, two_parts,
}
use shinzohub.Registrar.Feeds.{AcpClient, acp_client, add_to_group, create_data_feed}
use shinzohub.Registrar.Feeds.Creation.{create_data_feed_lem}
use shinzohub.Registrar.Service.{
  RegistrarRequest, RegistrarResponse, request_host_role, validate_did, route_of, call_route,
  reply_of, json_handler, json, serve,
}
use shinzohub.Registrar.Service.Outcome.{IsConfirmed, serve-IsConfirmed}

abbrev toy_hub : Hub
toy_hub = record {
  new_cmd_builder = ok tt;
  build_jws = λ draft. ok (codes "jws");
  build_tx = λ signer messages. ok (codes "tx");
  broadcast_tx = λ tx. ok (codes "hash");
  await_tx = λ hash. ok none;
  object_owner = λ policy object. ok false;
  verify_access = λ policy object permission actor. ok true;
}

abbrev toy_client : AcpGoClient
toy_client = record {
  signer = codes "signer";
  actor = record { did = codes "did:actor" };
  policy_id = codes "policy";
  chain_id = codes "chain";
}

abbrev quiet : Net
quiet = record { broadcasts = [] }

abbrev one_command : List PolicyCmd
one_command = register_object (new_object (codes "view") (codes "v")) ∷ []

abbrev parent : Bytes × Bytes
parent = (codes "view", codes "a")

parse_parent_iff_example :
    (parse_parent (codes "view:a") ≡ ok parent)
    ↔ ((codes "view:a" ≡ parent_id parent) × HasNoColon parent.0 × HasNoColon parent.1)
parse_parent_iff_example = parse_parent_iff (codes "view:a") parent

parent_parsed : parse_parent (codes "view:a") ≡ ok parent
unfolding parse_parent split_colon two_parts
parent_parsed = refl

no_colons : HasNoColon parent.0 × HasNoColon parent.1
no_colons = let all = (parse_parent_iff (codes "view:a") parent).0 parent_parsed in (all.1, all.2)

abbrev acp : AcpClient
acp = acp_client toy_hub toy_client

create_data_feed_lem_example :
    create_data_feed acp (codes "feed") (codes "did:x") (codes "view:a" ∷ []) quiet
    ≡ acp.execute
        (set_relationship
            (actor_relationship (codes "view") (codes "feed") (codes "creator") (codes "did:x"))
          ∷ set_relationship (
              relationship
                (codes "view")
                (codes "feed")
                (codes "parent")
                (codes "view")
                (codes "a"))
          ∷ [])
        (ClientError.create_data_feed_failed (codes "feed") (codes "did:x"))
        quiet
create_data_feed_lem_example =
    create_data_feed_lem acp (codes "feed") (codes "did:x") (parent ∷ []) quiet (λ p. cc)
      (no_colons, tt)

abbrev host_path : Bytes
host_path = codes "/request-host-role"

abbrev decode_did : Bytes → Result LibError RegistrarRequest
decode_did body = ok (record { did = body; data_feed_id = []; parent_resource_ids = [] })

abbrev success : RegistrarResponse
success = record { success = true; error = none }

host_served : (serve decode_did acp host_path (codes "did:x") quiet).0 ≡ json 200 success
unfolding serve route_of same json_handler call_route reply_of request_host_role validate_did
    add_to_group acp_client set_actor_relationship execute_policy_commands sign_commands
    sign_command send_and_confirm_tx broadcast_tx
host_served = refl

serve-IsConfirmed_example :
    IsConfirmed toy_hub quiet (serve decode_did acp host_path (codes "did:x") quiet).1
serve-IsConfirmed_example =
    serve-IsConfirmed decode_did toy_hub toy_client host_path (codes "did:x") success quiet
      host_served
