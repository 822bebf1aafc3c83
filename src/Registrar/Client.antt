-- ===== src/Registrar/Client.antt =====
-- The client of SourceHub's access control: pkg/sourcehub/acpClient.go, acpGoClient.go and
-- tx_signer.go.
pub mod Outcome
use shinzohub.Prelude.{
  Bytes, Bool, true, false, Option, none, some, List, [], ◌∷◌, ◌++◌, Result, ok, err, and_then,
  map_err, Exec, pure, fail, lift, ◌>>=◌, ◌>>◌, codes, is_empty, if◌then◌else◌,
}
use shinzohub.Acp.{
  Object, new_object, Relationship, actor_relationship, relationship, actor_set_relationship,
  PolicyCmd, set_relationship, delete_relationship, register_object,
}
use shinzohub.Sourcehub.State.{LibError}

-- `NewMsgSignedPolicyCmdFromJWS`: the address of the signer of the transaction, and the command.
pub data SignedMsg : Type 0 where
  signed_policy_cmd : Bytes → Bytes → SignedMsg

-- What the builder of commands is given: actor, policy, command.
pub data Draft : Type 0 where
  draft : Bytes → Bytes → PolicyCmd → Draft

-- SourceHub's SDK: the builders, the queries, and the broadcast of a transaction, which gives its
-- hash. `await_tx` gives the error of the transaction's execution, if it has one.
pub record Hub : Type 0 where
  pub new_cmd_builder : Result LibError (Unit {0})
  pub build_jws : Draft → Result LibError Bytes
  pub build_tx : Bytes → List SignedMsg → Result LibError Bytes
  pub broadcast_tx : Bytes → Result LibError Bytes
  pub await_tx : Bytes → Result LibError (Option LibError)
  pub object_owner : Bytes → Object → Result LibError Bool
  -- policy, object, permission, actor
  pub verify_access : Bytes → Object → Bytes → Bytes → Result LibError Bool

-- The transactions that SourceHub has taken in.
pub record Net : Type 0 where
  pub broadcasts : List Bytes

pub data ClientError : Type 0 where
  no_commands no_parents : ClientError
  missing_api_signer missing_policy_id empty_did empty_data_feed_id : ClientError
  library sending waiting failed query_owner verify_failed bad_hex : LibError → ClientError
  check_registered object_failed : Bytes → ClientError → ClientError
  -- relation, resource type, resource name
  relationship_failed : Bytes → Bytes → Bytes → ClientError → ClientError
  -- relation, resource type and name, subject's resource type, name and relation
  actor_set_failed : Bytes → Bytes → Bytes → Bytes → Bytes → Bytes → ClientError → ClientError
  invalid_parent : Bytes → ClientError
  create_data_feed_failed : Bytes → Bytes → ClientError → ClientError

abbrev pub N : Type 0 → Type 0
N A = Exec Net ClientError A

pub record AcpActor : Type 0 where
  pub did : Bytes

-- The fields that the operations read; `signer` is the signer's account address.
pub record AcpGoClient : Type 0 where
  pub signer : Bytes
  pub actor : AcpActor
  pub policy_id : Bytes
  pub chain_id : Bytes

unfoldable pub get_actor : AcpGoClient → AcpActor
get_actor client = client.actor

unfoldable pub set_actor : AcpActor → AcpGoClient → AcpGoClient
set_actor actor client = record client { actor = actor }

unfoldable pub broadcast_tx : Hub → (ClientError → ClientError) → Bytes → N Bytes
broadcast_tx hub decorate tx net = elim (hub.broadcast_tx tx) [
  | err e ↦ (err (decorate (ClientError.sending e)), net)
  | ok hash ↦ (ok hash, record net { broadcasts = net.broadcasts ++ tx ∷ [] })
]

-- `result.Error()`
abbrev pub execution : (ClientError → ClientError) → Option LibError → Result ClientError (Unit {0})
execution decorate none = ok tt
execution decorate (some e) = err (decorate (ClientError.failed e))

unfoldable pub send_and_confirm_tx :
    Hub → AcpGoClient → List SignedMsg → (ClientError → ClientError) → N (Unit {0})
unfolding broadcast_tx
send_and_confirm_tx hub client messages decorate = do
  tx ← lift (map_err (λ e. decorate (ClientError.library e)) (hub.build_tx client.signer messages))
  hash ← broadcast_tx hub decorate tx
  result ← lift (map_err (λ e. decorate (ClientError.waiting e)) (hub.await_tx hash))
  lift (execution decorate result)

-- One turn of the loop over the commands.
unfoldable pub sign_command : Hub → AcpGoClient → PolicyCmd → Result LibError SignedMsg
sign_command hub client cmd = and_then hub.new_cmd_builder (λ _.
    and_then (hub.build_jws (draft client.actor.did client.policy_id cmd))
      (λ jws. ok (signed_policy_cmd client.signer jws)))

-- The loop, which adds to the message set.
unfoldable pub sign_commands :
    Hub → AcpGoClient → List SignedMsg → List PolicyCmd → Result LibError (List SignedMsg)
sign_commands hub client messages [] = ok messages
sign_commands hub client messages (cmd ∷ cmds) =
    and_then (sign_command hub client cmd)
      (λ message. sign_commands hub client (messages ++ message ∷ []) cmds)

unfoldable pub execute_policy_commands :
    Hub → AcpGoClient → List PolicyCmd → (ClientError → ClientError) → N (Unit {0})
execute_policy_commands hub client [] decorate = fail (decorate ClientError.no_commands)
execute_policy_commands hub client (cmd ∷ cmds) decorate = do
  messages ←
      lift
        (map_err (λ e. decorate (ClientError.library e)) (sign_commands hub client [] (cmd ∷ cmds)))
  send_and_confirm_tx hub client messages decorate

unfoldable pub is_object_registered : Hub → AcpGoClient → Bytes → Bytes → Result ClientError Bool
is_object_registered hub client resource id =
    map_err ClientError.query_owner (hub.object_owner client.policy_id (new_object resource id))

-- An object that is registered is not registered again.
unfoldable pub register_once : Hub → AcpGoClient → Bytes → Bytes → Bool → N (Unit {0})
register_once hub client resource id true = pure tt
register_once hub client resource id false =
    execute_policy_commands hub client (register_object (new_object resource id) ∷ [])
      (ClientError.object_failed id)

unfoldable pub acp_register_object : Hub → AcpGoClient → Bytes → Bytes → N (Unit {0})
acp_register_object hub client resource id = do
  registered ←
      lift (map_err (ClientError.check_registered id) (is_object_registered hub client resource id))
  register_once hub client resource id registered

unfoldable pub set_actor_relationship :
    Hub → AcpGoClient → Bytes → Bytes → Bytes → Bytes → N (Unit {0})
set_actor_relationship hub client resource_type name relation did =
    execute_policy_commands hub client
      (set_relationship (actor_relationship resource_type name relation did) ∷ [])
      (ClientError.relationship_failed relation resource_type name)

unfoldable pub acp_set_relationship :
    Hub → AcpGoClient → Bytes → Bytes → Bytes → Bytes → Bytes → N (Unit {0})
acp_set_relationship hub client resource_type name relation subject_type subject =
    execute_policy_commands hub client
      (set_relationship (relationship resource_type name relation subject_type subject) ∷ [])
      (ClientError.relationship_failed relation resource_type name)

unfoldable pub set_actor_set_relationship :
    Hub → AcpGoClient → Bytes → Bytes → Bytes → Bytes → Bytes → Bytes → N (Unit {0})
set_actor_set_relationship hub client resource_type name relation subject_type subject of =
    execute_policy_commands hub client
      (set_relationship (actor_set_relationship resource_type name relation subject_type subject of)
        ∷ [])
      (ClientError.actor_set_failed relation resource_type name subject_type subject of)

unfoldable pub delete_actor_relationship :
    Hub → AcpGoClient → Bytes → Bytes → Bytes → Bytes → N (Unit {0})
delete_actor_relationship hub client resource_type name relation did =
    execute_policy_commands hub client
      (delete_relationship (actor_relationship resource_type name relation did) ∷ [])
      (ClientError.relationship_failed relation resource_type name)

unfoldable pub acp_delete_relationship :
    Hub → AcpGoClient → Bytes → Bytes → Bytes → Bytes → Bytes → N (Unit {0})
acp_delete_relationship hub client resource_type name relation subject_type subject =
    execute_policy_commands hub client
      (delete_relationship (relationship resource_type name relation subject_type subject) ∷ [])
      (ClientError.relationship_failed relation resource_type name)

unfoldable pub delete_actor_set_relationship :
    Hub → AcpGoClient → Bytes → Bytes → Bytes → Bytes → Bytes → Bytes → N (Unit {0})
delete_actor_set_relationship hub client resource_type name relation subject_type subject of =
    execute_policy_commands hub client
      (delete_relationship
          (actor_set_relationship resource_type name relation subject_type subject of)
        ∷ [])
      (ClientError.actor_set_failed relation resource_type name subject_type subject of)

unfoldable pub verify_access_request :
    Hub → AcpGoClient → Bytes → Bytes → Bytes → Bytes → Result ClientError Bool
verify_access_request hub client resource_type name permission did =
    map_err ClientError.verify_failed
      (hub.verify_access client.policy_id (new_object resource_type name) permission did)

-- `NewApiSignerFromEnv`: the private key's text in the environment; a missing variable is empty.
-- `decode_hex` and the derivation of the address are library code.
unfoldable pub new_api_signer_from_env :
    (Bytes → Result LibError Bytes) → (Bytes → Bytes) → Bytes → Result ClientError Bytes
new_api_signer_from_env decode_hex address_of hex_key =
    if is_empty hex_key
    then err ClientError.missing_api_signer
    else and_then (map_err ClientError.bad_hex (decode_hex hex_key)) (λ key. ok (address_of key))
