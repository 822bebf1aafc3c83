-- ===== src/Tests/Fixtures.antt =====
-- The concrete chain of the tests: a cryptography in which a signature is the signed text behind the
-- key, an environment that accepts every packet, and a genesis with a policy.
use shinzohub.Prelude.{Bytes, true, [], ◌++◌, ok, codes, same}
use shinzohub.Sourcehub.State.{State, Env}
use shinzohub.Sourcehub.Crypto.{Crypto}
use shinzohub.Sourcehub.Keeper.{Keeper}
use shinzohub.Sourcehub.Packets.{Channel}
use shinzohub.Sourcehub.Messages.{MsgRequestStreamAccess}
use shinzohub.Sourcehub.Registration.{EntityProof, register_entity}
use shinzohub.Sourcehub.Genesis.{GenesisState, init_genesis}
use shinzohub.Sourcehub.System.{empty_state}

abbrev pub toy_crypto : Crypto
toy_crypto = record {
  PubKey = Bytes;
  Signature = Bytes;
  PeerKey = Bytes;
  PeerId = Bytes;
  parse_pubkey = λ b. ok b;
  parse_der_signature = λ b. ok b;
  sha256 = λ m. m;
  verify = λ sig h pk. same sig (pk ++ h);
  ed25519_verify = λ pk m sig. same sig (pk ++ (m ++ pk));
  create_did_key = λ k. ok (codes "did:key:" ++ k);
  unmarshal_ed25519 = λ b. ok b;
  peer_id = λ k. ok k;
  peer_id_string = λ i. i;
}

abbrev pub toy_env : Env
toy_env = record {
  module_address = codes "module";
  block_time = 0;
  ica_address = λ connection port. (codes "account", true);
  register_account = λ connection owner version order. ok tt;
  send_tx = λ connection port packet timeout. ok 1;
  new_any = λ msg. ok (record { type_url = []; value = [] });
  marshal_tx = λ anys. ok [];
  marshal_json = λ fields. ok [];
}

abbrev pub toy_keeper : Keeper
toy_keeper = record { authority = codes "gov" }

abbrev pub toy_genesis : GenesisState
toy_genesis = record {
  controller_connection_id = codes "connection-0";
  host_connection_id = codes "connection-0";
  version = codes "ics27-1";
  encoding = codes "proto3";
  tx_type = codes "sdk_multi_msg";
  policy_id = codes "policy";
  params = record { admin = codes "ada" };
}

-- 32 bytes, which sign the empty text with 64.
abbrev pub peer_key : Bytes
peer_key = codes "0123456789abcdef0123456789abcdef"

abbrev pub toy_proof : EntityProof
toy_proof = record {
  peer_pubkey = peer_key;
  peer_signature = peer_key ++ peer_key;
  node_pubkey = codes "node";
  node_signature = codes "node";
  message = [];
}

abbrev pub toy_did : Bytes
toy_did = codes "did:key:node"

abbrev pub alice : Bytes
alice = codes "alice"

abbrev pub bob : Bytes
bob = codes "bob"

abbrev pub start : State
start = init_genesis toy_genesis empty_state

-- The state after alice's registration.
abbrev pub registered_state : State
registered_state = (register_entity toy_crypto toy_env toy_proof 1 alice start).1

abbrev pub toy_channel : Channel
toy_channel = record {
  connection = codes "connection-0";
  port = codes "icacontroller-module";
  account = codes "account";
}

abbrev pub access_msg : MsgRequestStreamAccess
access_msg = record {
  signer = codes "ada";
  resource = 1;
  stream_id = codes "view_1";
  did = toy_did;
  expiration = 0;
}
