-- ===== src/Registrar/Feeds.antt =====
-- The client of the registrar, pkg/sourcehub/shinzoAcpClient.go and shinzoAcpGoClient.go, over the
-- interface of pkg/sourcehub/acpClient.go.
pub mod Creation
use shinzohub.Prelude.{
  Bytes, Bool, List, [], ◌∷◌, ◌++◌, Result, ok, err, map_err, fail, lift, ◌>>=◌, codes,
}
use shinzohub.Acp.{PolicyCmd, set_relationship, actor_relationship}
use shinzohub.Registrar.Client
use shinzohub.Registrar.Client.{Hub, AcpGoClient, ClientError, N, execute_policy_commands}
use shinzohub.Registrar.Parents.{parent_commands}

-- The operations of the interface `AcpClient` that its client calls.
pub record AcpClient : Type 0 where
  -- resource type, resource name, relation, DID
  pub set_actor_relationship : Bytes → Bytes → Bytes → Bytes → N (Unit {0})
  pub delete_actor_relationship : Bytes → Bytes → Bytes → Bytes → N (Unit {0})
  pub execute : List PolicyCmd → (ClientError → ClientError) → N (Unit {0})
  pub verify_access_request : Bytes → Bytes → Bytes → Bytes → Result ClientError Bool
  pub actor_did : Bytes

-- The client of acpGoClient.go implements it.
unfoldable pub acp_client : Hub → AcpGoClient → AcpClient
acp_client hub client = record {
  set_actor_relationship = Client.set_actor_relationship hub client;
  delete_actor_relationship = Client.delete_actor_relationship hub client;
  execute = execute_policy_commands hub client;
  verify_access_request = Client.verify_access_request hub client;
  actor_did = client.actor.did;
}

unfoldable pub add_to_group : AcpClient → Bytes → Bytes → N (Unit {0})
add_to_group acp group did = acp.set_actor_relationship (codes "group") group (codes "guest") did

unfoldable pub remove_from_group : AcpClient → Bytes → Bytes → N (Unit {0})
remove_from_group acp group did =
    acp.delete_actor_relationship (codes "group") group (codes "guest") did

unfoldable pub block_from_group : AcpClient → Bytes → Bytes → N (Unit {0})
block_from_group acp group did =
    acp.set_actor_relationship (codes "group") group (codes "blocked") did

unfoldable pub give_query_access : AcpClient → Bytes → Bytes → N (Unit {0})
give_query_access acp document did =
    acp.set_actor_relationship (codes "view") document (codes "subscriber") did

unfoldable pub ban_user_from_view : AcpClient → Bytes → Bytes → N (Unit {0})
ban_user_from_view acp document did =
    acp.set_actor_relationship (codes "view") document (codes "banned") did

abbrev pub creator_command : Bytes → Bytes → PolicyCmd
creator_command document did =
    set_relationship (actor_relationship (codes "view") document (codes "creator") did)

unfoldable pub create_data_feed : AcpClient → Bytes → Bytes → List Bytes → N (Unit {0})
create_data_feed acp document did [] =
    fail (ClientError.create_data_feed_failed document did ClientError.no_parents)
create_data_feed acp document did (id ∷ ids) = do
  parents ← lift (
      map_err (ClientError.create_data_feed_failed document did)
        (parent_commands document [] (id ∷ ids)))
  acp.execute (creator_command document did ∷ parents)
      (ClientError.create_data_feed_failed document did)

-- The argument `policyID` is not used.
unfoldable pub feed_verify_access_request :
    AcpClient → Bytes → Bytes → Bytes → Bytes → Bytes → Result ClientError Bool
feed_verify_access_request acp policy resource object permission did =
    acp.verify_access_request resource object permission did

unfoldable pub get_actor_did : AcpClient → Bytes
get_actor_did acp = acp.actor_did
