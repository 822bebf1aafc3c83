-- ===== src/Sdk/Requests.antt =====
-- The client that broadcasts, sdk/client.go, and the request of access to a stream,
-- sdk/request_stream_access.go, which changes the builder that it is given.
pub mod Override
use shinzohub.Prelude.{
  ℕ, Bytes, Bool, true, false, List, [], ◌∷◌, ◌++◌, Result, ok, err, and_then, map_err, Exec, pure,
  gets, lift, modify, ◌>>=◌, ◌>>◌, is_empty, ◌==◌, if◌then◌else◌,
}
use shinzohub.Sourcehub.State.{LibError}
use shinzohub.Sourcehub.Messages.{
  MsgRequestStreamAccess, BasicError, validate_request_stream_access,
}
use shinzohub.Sourcehub.Server.{Msg, stream_access}
use shinzohub.Sdk.Builder.{
  TxBuilder, SdkLib, SdkError, Signer, Tx, build, apply_opt, with_min_gas_price,
}

pub record TxResponse : Type 0 where
  pub code : ℕ
  pub raw_log : Bytes
  pub tx_hash : Bytes

-- The shared builder, and the transactions that were given to the node.
pub record Session : Type 0 where
  pub builder : TxBuilder
  pub sent : List Bytes

pub data RequestError : Type 0 where
  validate : BasicError → RequestError
  sdk : SdkError → RequestError

abbrev pub R : Type 0 → Type 0
R A = Exec Session RequestError A

-- `BroadcastTx` of the node's service, which may answer with a code other than 0.
abbrev pub Service : Type 0
Service = Bytes → Result LibError TxResponse

unfoldable pub post : Service → Bytes → R TxResponse
post service bz s =
    (map_err (λ e. sdk (SdkError.library e)) (service bz), record s { sent = s.sent ++ bz ∷ [] })

unfoldable pub accepted : (TxResponse → SdkError) → TxResponse → R TxResponse
accepted reject response =
    lift (if response.code == 0 then ok response else err (sdk (reject response)))

-- `Client.BroadcastTx`
unfoldable pub broadcast_tx : SdkLib → Service → Tx → R TxResponse
broadcast_tx lib service tx = do
  bz ← lift (map_err (λ e. sdk (SdkError.encode_failed e)) (lib.encode tx))
  response ← post service bz
  accepted (λ r. SdkError.rejected_with_code r.raw_log r.code) response

pub record RequestStreamAccessParams : Type 0 where
  pub signer : Signer
  pub stream_id : Bytes
  pub resource : ℕ
  pub identity : Bytes
  pub expiration : ℕ
  pub min_gas_price : Bytes

abbrev pub message_of : RequestStreamAccessParams → MsgRequestStreamAccess
message_of p = record {
  signer = p.signer.address;
  resource = p.resource;
  stream_id = p.stream_id;
  did = p.identity;
  expiration = p.expiration;
}

-- `WithMinGasPrice(p.MinGasPrice)(b)`
unfoldable pub override_gas_price : Bytes → R (Unit {0})
override_gas_price gp =
    if is_empty gp
    then pure tt
    else modify (λ s. record s { builder = apply_opt (with_min_gas_price gp) s.builder })

-- From `b.Build` on.
unfoldable pub send_request : SdkLib → Service → RequestStreamAccessParams → R TxResponse
send_request lib service p = do
  builder ← gets (λ s. s.builder)
  tx ← lift (map_err sdk (build lib builder p.signer (stream_access (message_of p))))
  bz ← lift (map_err (λ e. sdk (SdkError.library e)) (lib.encode tx))
  response ← post service bz
  accepted (λ r. SdkError.rejected r.raw_log) response

unfoldable pub request_stream_access :
    (Bytes → Bool) → SdkLib → Service → RequestStreamAccessParams → R TxResponse
request_stream_access is_bech32 lib service p = do
  lift (map_err validate (validate_request_stream_access is_bech32 (message_of p)))
  override_gas_price p.min_gas_price
  send_request lib service p
