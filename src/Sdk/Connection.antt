-- ===== src/Sdk/Connection.antt =====
-- The connection of the SDK's client, sdk/client.go, and the signer that uses a key of a keyring,
-- sdk/signer.go. gRPC, CometBFT's client and the keyring are code of other repositories.
pub mod Closing
use shinzohub.Prelude.{
  ℕ, Bytes, Bool, true, false, Option, none, some, List, [], ◌∷◌, ◌++◌, Result, ok, err, and_then,
  map_err, Exec, pure, fail, lift, modify, ◌>>=◌, ◌>>◌, codes, same, if◌then◌else◌,
}
use shinzohub.Sourcehub.State.{LibError}

-- What is open: gRPC connections and CometBFT clients, by their handles.
pub record Open : Type 0 where
  pub conns : List Bytes
  pub comets : List Bytes

-- The fields that the options set.
pub record ClientConfig : Type 0 where
  pub grpc_addr : Bytes
  pub comet_rpc_addr : Bytes
  pub grpc_opts : List Bytes

abbrev pub Opt : Type 0
Opt = ClientConfig → Result LibError ClientConfig

abbrev pub with_grpc_addr : Bytes → Opt
with_grpc_addr addr c = ok (record c { grpc_addr = addr })

abbrev pub with_comet_rpc_addr : Bytes → Opt
with_comet_rpc_addr addr c = ok (record c { comet_rpc_addr = addr })

abbrev pub with_grpc_opts : List Bytes → Opt
with_grpc_opts opts c = ok (record c { grpc_opts = opts })

abbrev pub default_config : ClientConfig
default_config = record {
  grpc_addr = codes "localhost:9090";
  comet_rpc_addr = codes "http://localhost:26657";
  grpc_opts = [];
}

unfoldable pub apply_opts : List Opt → ClientConfig → Result LibError ClientConfig
apply_opts [] c = ok c
apply_opts (o ∷ os) c = and_then (o c) (apply_opts os)

-- `insecure` is the option that turns off transport security. A handle that is opened is new.
pub record NetLib : Type 0 where
  pub insecure : Bytes
  pub dial : Bytes → List Bytes → Result LibError Bytes
  pub new_comet : Bytes → Bytes → Result LibError Bytes
  pub start_comet : Bytes → Result LibError (Unit {0})

pub data DialError : Type 0 where
  option_failed grpc_dial comet_rpc start_comet_rpc : LibError → DialError

pub record Client : Type 0 where
  pub conn : Option Bytes
  pub comet_client : Option Bytes

abbrev pub C : Type 0 → Type 0
C A = Exec Open DialError A

-- `grpc.Dial`, which opens a connection.
unfoldable pub open_conn : NetLib → ClientConfig → C Bytes
open_conn lib c = do
  conn ← lift (map_err grpc_dial (lib.dial c.grpc_addr (lib.insecure ∷ c.grpc_opts)))
  modify (λ s. record s { conns = conn ∷ s.conns })
  pure conn

-- `rpc.Start()`
unfoldable pub open_comet : NetLib → ClientConfig → C Bytes
open_comet lib c = do
  rpc ← lift (map_err comet_rpc (lib.new_comet c.comet_rpc_addr (codes "/websocket")))
  started ← lift (map_err start_comet_rpc (lib.start_comet rpc))
  modify (λ s. record s { comets = rpc ∷ s.comets })
  pure rpc

unfoldable pub new_client : NetLib → List Opt → C Client
new_client lib opts = do
  c ← lift (map_err option_failed (apply_opts opts default_config))
  conn ← open_conn lib c
  rpc ← open_comet lib c
  pure record { conn = some conn; comet_client = some rpc }

-- The first occurrence of a handle is taken out.
unfoldable pub release : Bytes → List Bytes → List Bytes
release h [] = []
release h (x ∷ xs) = if same h x then xs else x ∷ release h xs

unfoldable pub close_conn : Option Bytes → Open → Open
close_conn none s = s
close_conn (some h) s = record s { conns = release h s.conns }

unfoldable pub stop_comet : Option Bytes → Open → Open
stop_comet none s = s
stop_comet (some h) s = record s { comets = release h s.comets }

-- `Close`, whose errors are not looked at.
unfoldable pub close : Client → Open → Open
close c s = close_conn c.conn (stop_comet c.comet_client s)

-- A key of a keyring: the type URL and the bytes of its public key.
pub record KeyRecord : Type 0 where
  pub type_url : Bytes
  pub key_bytes : Bytes

pub record KeyringLib : Type 0 where
  pub secp256k1_url : Bytes
  pub find_key : Bytes → Result LibError (Option KeyRecord)
  pub unmarshal_key : Bytes → Result LibError Bytes
  pub address_of : Bytes → Bytes
  -- key name and message, in the direct mode
  pub sign_direct : Bytes → Bytes → Result LibError Bytes

pub data SignerError : Type 0 where
  key_not_found key_type : Bytes → SignerError
  key_malformed : LibError → SignerError

pub record KeyringSigner : Type 0 where
  pub key_name : Bytes
  pub pubkey : Bytes

unfoldable pub new_tx_signer_from_keyring_key :
    KeyringLib → Bytes → Result SignerError KeyringSigner
new_tx_signer_from_keyring_key kr name = elim (kr.find_key name) [
  | err e ↦ err (key_not_found name)
  | ok found ↦ elim found [
    | none ↦ err (key_not_found name)
    | some rec ↦
        if same rec.type_url kr.secp256k1_url
        then map_err key_malformed (
            and_then (kr.unmarshal_key rec.key_bytes)
              (λ pk. ok (record { key_name = name; pubkey = pk })))
        else err (key_type name)
  ]
]

unfoldable pub get_acc_address : KeyringLib → KeyringSigner → Bytes
get_acc_address kr s = kr.address_of s.pubkey

-- `GetPrivateKey().Sign(msg)`
unfoldable pub keyring_sign : KeyringLib → KeyringSigner → Bytes → Result LibError Bytes
keyring_sign kr s msg = kr.sign_direct s.key_name msg
