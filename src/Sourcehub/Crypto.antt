-- ===== src/Sourcehub/Crypto.antt =====
-- x/sourcehub/keeper/validation.go and derivation.go: the two signature checks of a registration,
-- and the DID and peer id that its keys stand for. The cryptography is that of other repositories.
use shinzohub.Prelude.{ℕ, Bytes, Bool, Result, ok, and_then, check, map_err, length, ◌==◌}
use shinzohub.Sourcehub.State.{LibError, Error}

pub record Crypto : Type 1 where
  pub PubKey : Type 0
  pub Signature : Type 0
  pub PeerKey : Type 0
  pub PeerId : Type 0
  -- secp256k1.ParsePubKey, ecdsa.ParseDERSignature, sha256.Sum256, Signature.Verify
  pub parse_pubkey : Bytes → Result LibError PubKey
  pub parse_der_signature : Bytes → Result LibError Signature
  pub sha256 : Bytes → Bytes
  pub verify : Signature → Bytes → PubKey → Bool
  -- ed25519.Verify
  pub ed25519_verify : Bytes → Bytes → Bytes → Bool
  -- didkey.CreateDIDKey(SECP256k1, key) and its `String`
  pub create_did_key : Bytes → Result LibError Bytes
  -- crypto.UnmarshalEd25519PublicKey, peer.IDFromPublicKey and the id's `String`
  pub unmarshal_ed25519 : Bytes → Result LibError PeerKey
  pub peer_id : PeerKey → Result LibError PeerId
  pub peer_id_string : PeerId → Bytes

-- ed25519.PublicKeySize, ed25519.SignatureSize
abbrev pub public_key_size : ℕ
public_key_size = 32

abbrev pub signature_size : ℕ
signature_size = 64

module _ (c : Crypto) where
  unfoldable pub verify_node_identity_key_signature :
      Bytes → Bytes → Bytes → Result Error (Unit {0})
  verify_node_identity_key_signature pubkey message signature =
      and_then (map_err Error.invalid_pubkey (c.parse_pubkey pubkey)) (λ pk.
        and_then (map_err Error.invalid_signature_encoding (c.parse_der_signature signature))
          (λ sig. check (c.verify sig (c.sha256 message) pk) Error.invalid_signature))

  unfoldable pub verify_peer_key_signature : Bytes → Bytes → Bytes → Result Error (Unit {0})
  verify_peer_key_signature pubkey message signature =
      and_then (check (length pubkey == public_key_size) (Error.peer_pubkey_length (length pubkey)))
        (λ _.
          and_then
            (check (length signature == signature_size)
              (Error.peer_signature_length (length signature)))
            (λ _. check (c.ed25519_verify pubkey message signature) Error.invalid_peer_signature))

  unfoldable pub derive_did : Bytes → Result Error Bytes
  derive_did pubkey = map_err (λ _. Error.did_failed) (c.create_did_key pubkey)

  unfoldable pub derive_pid : Bytes → Result Error Bytes
  derive_pid pubkey =
      and_then (check (length pubkey == public_key_size) (Error.ed25519_length (length pubkey)))
        (λ _. and_then (map_err Error.unmarshal_failed (c.unmarshal_ed25519 pubkey)) (λ key.
          and_then (map_err Error.peer_id_failed (c.peer_id key)) (λ id. ok (c.peer_id_string id))))
