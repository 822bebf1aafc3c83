-- ===== src/Sourcehub/Registration.antt =====
-- `RegisterEntity`, `RegisterObject` and the reads of a registration, of x/sourcehub/keeper/keeper.go.
pub mod Links
pub mod Outcome
pub mod Replay
pub mod Verified
use shinzohub.Prelude.{
  ℕ, Bytes, Bool, true, false, Option, none, some, Result, ok, err, and_then, pure, lift, gets,
  guard, modify, ◌>>=◌, ◌>>◌, not, codes, is_empty, if◌then◌else◌,
}
use shinzohub.Acp.{PolicyCmd, direct_policy_cmd, set_relationship, actor_relationship, new_object}
use shinzohub.Sourcehub.Keys.{view_resource_name}
use shinzohub.Sourcehub.State.{State, Env, Error, M}
use shinzohub.Sourcehub.Roles.{role_to_string, addr_role_key, did_role_key, bytes_equal}
use shinzohub.Sourcehub.Crypto.{
  Crypto, verify_peer_key_signature, verify_node_identity_key_signature, derive_pid, derive_did,
}
use shinzohub.Sourcehub.Keeper.{set_key}
use shinzohub.Sourcehub.Packets.{open_channel, require_policy_id, send_message}

-- The keys, signatures and message of a registration, which are five arguments of `RegisterEntity`.
pub record EntityProof : Type 0 where
  pub peer_pubkey : Bytes
  pub peer_signature : Bytes
  pub node_pubkey : Bytes
  pub node_signature : Bytes
  pub message : Bytes

-- The DID and the peer id of a registration whose signatures hold.
unfoldable pub verify_entity : Crypto → EntityProof → Result Error (Bytes × Bytes)
verify_entity c p =
    and_then (verify_peer_key_signature c p.peer_pubkey p.message p.peer_signature) (λ _.
      and_then (verify_node_identity_key_signature c p.node_pubkey p.message p.node_signature) (λ _.
        and_then (derive_pid c p.peer_pubkey)
          (λ pid. and_then (derive_did c p.node_pubkey) (λ did. ok (did, pid)))))

-- `len(existing) > 0 && !bytesEqual(existing, wanted)`
unfoldable pub holds_other : Option Bytes → Bytes → Bool
holds_other none wanted = false
holds_other (some existing) wanted =
    if is_empty existing then false else not (bytes_equal existing wanted)

unfoldable pub check_links : Bytes → ℕ → Bytes → M (Unit {0})
unfolding holds_other
check_links address role did = do
  existing_did ← gets (λ s. s.store (addr_role_key address role))
  guard (not (holds_other existing_did did)) Error.address_registered
  existing_addr ← gets (λ s. s.store (did_role_key did role))
  guard (not (holds_other existing_addr address)) Error.did_registered

unfoldable pub link : Bytes → ℕ → Bytes → State → State
unfolding set_key
link address role did s =
    set_key (did_role_key did role) address (set_key (addr_role_key address role) did s)

unfoldable pub register_entity : Crypto → Env → EntityProof → ℕ → Bytes → M (Bytes × Bytes)
register_entity c env proof entity address = do
  ch ← open_channel env
  policy ← require_policy_id
  ids ← lift (verify_entity c proof)
  check_links address entity ids.0
  send_message env ch (
      direct_policy_cmd ch.account policy (
        set_relationship
          (actor_relationship (codes "group") (role_to_string entity) (codes "guest") ids.0)))
  modify (link address entity ids.0)
  pure ids

-- The second result says whether there is a DID.
unfoldable pub get_did_for_address_role : Bytes → ℕ → State → Option Bytes
get_did_for_address_role address role s = elim (s.store (addr_role_key address role)) [
  | none ↦ none
  | some v ↦ if is_empty v then none else some v
]

unfoldable pub register_object : Env → Bytes → M (Unit {0})
register_object env id = do
  ch ← open_channel env
  policy ← require_policy_id
  send_message env ch (
      direct_policy_cmd ch.account policy
        (PolicyCmd.register_object (new_object view_resource_name id)))
