-- ===== src/Sourcehub/Registration/Verified.antt =====
-- What a successful registration has checked of its keys and signatures.
use shinzohub.Prelude.{ℕ, Bytes, true, ◌≡◌, inl, inr, ok, Result-cases, arith, length}
use shinzohub.Sourcehub.State.{State, Env}
use shinzohub.Sourcehub.Crypto.{
  Crypto, verify_peer_key_signature, verify_node_identity_key_signature, derive_pid, derive_did,
}
use shinzohub.Sourcehub.Registration.{EntityProof, verify_entity, register_entity}
use shinzohub.Sourcehub.Registration.Replay.{register_entity-ok-IsRegistered}

-- Both keys have signed the message, and the DID is that of the node identity key.
pub record IsVerified (c : Crypto) (p : EntityProof) (did pid : Bytes) : Type 0 where
  pub peer_length : length p.peer_pubkey ≡ 32
  pub signature_length : length p.peer_signature ≡ 64
  pub peer_signed : c.ed25519_verify p.peer_pubkey p.message p.peer_signature ≡ true
  pub node_key : c.PubKey
  pub node_parsed : c.parse_pubkey p.node_pubkey ≡ ok node_key
  pub node_sig : c.Signature
  pub sig_parsed : c.parse_der_signature p.node_signature ≡ ok node_sig
  pub node_signed : c.verify node_sig (c.sha256 p.message) node_key ≡ true
  pub did_derived : c.create_did_key p.node_pubkey ≡ ok did
  pub peer_key : c.PeerKey
  pub peer_parsed : c.unmarshal_ed25519 p.peer_pubkey ≡ ok peer_key
  pub peer_id : c.PeerId
  pub peer_id_derived : c.peer_id peer_key ≡ ok peer_id
  pub pid_derived : c.peer_id_string peer_id ≡ pid

verify_entity-IsVerified :
    (c : Crypto) (p : EntityProof) (did pid : Bytes)
    → verify_entity c p ≡ ok (did, pid)
    → IsVerified c p did pid
unfolding verify_entity verify_peer_key_signature verify_node_identity_key_signature derive_pid
    derive_did
verify_entity-IsVerified c p did pid h = elim (Result-cases (c.parse_pubkey p.node_pubkey)) [
  | inl (e, q) ↦ absurd (ground arith)
  | inr (pk, q) ↦ elim (Result-cases (c.parse_der_signature p.node_signature)) [
    | inl (e, q₂) ↦ absurd (ground arith)
    | inr (sig, q₂) ↦ elim (Result-cases (c.unmarshal_ed25519 p.peer_pubkey)) [
      | inl (e, q₃) ↦ absurd (ground arith)
      | inr (key, q₃) ↦ elim (Result-cases (c.peer_id key)) [
        | inl (e, q₄) ↦ absurd (ground arith)
        | inr (id, q₄) ↦ record {
          peer_length = ground arith;
          signature_length = ground arith;
          peer_signed = ground arith;
          node_key = pk;
          node_parsed = q;
          node_sig = sig;
          sig_parsed = q₂;
          node_signed = ground arith;
          did_derived = ground arith;
          peer_key = key;
          peer_parsed = q₃;
          peer_id = id;
          peer_id_derived = q₄;
          pid_derived = ground arith;
        }
      ]
    ]
  ]
]

-- A registration succeeds only if the peer key (an Ed25519 key of 32 bytes) and the node identity key
-- have both signed the message, the peer key by an Ed25519 signature of 64 bytes; the DID that is
-- returned is that of the node identity key, and the peer id that of the peer key.
pub registered-IsVerified :
    (c : Crypto) (env : Env) (p : EntityProof) (r : ℕ) (a : Bytes) (s t : State) (did pid : Bytes)
    → register_entity c env p r a s ≡ (ok (did, pid), t)
    → IsVerified c p did pid
registered-IsVerified c env p r a s t did pid h =
    verify_entity-IsVerified c p did pid
      (register_entity-ok-IsRegistered c env p r a s t did pid h).verified
