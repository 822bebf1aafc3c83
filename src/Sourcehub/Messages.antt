-- ===== src/Sourcehub/Messages.antt =====
-- The four messages of the module (fields of x/sourcehub/types/tx.pb.go) and their stateless checks,
-- `ValidateBasic` of x/sourcehub/types/msg_*.go.
pub mod Objects
use shinzohub.Prelude.{
  ℕ, Bytes, Bool, true, false, List, [], ◌∷◌, ◌+◌, Result, ok, err, and_then, check, map, same,
  contains, is_empty, length, leb, ◌==◌, ◌&&◌, ◌||◌, not, if◌then◌else◌, suc,
}

pub record MsgRegisterSourcehubIca : Type 0 where
  pub signer : Bytes
  pub controller_connection_id : Bytes
  pub host_connection_id : Bytes

pub record MsgRegisterShinzoPolicy : Type 0 where
  pub signer : Bytes

pub record MsgRegisterShinzoObjects : Type 0 where
  pub signer : Bytes
  pub resources : List Bytes

-- `resource` is the bit pattern of an `int32` enumeration.
pub record MsgRequestStreamAccess : Type 0 where
  pub signer : Bytes
  pub resource : ℕ
  pub stream_id : Bytes
  pub did : Bytes
  pub expiration : ℕ

-- `empty_resource` and `duplicate_resource` carry the index and the text.
pub data BasicError : Type 0 where
  invalid_signer empty_controller_connection empty_host_connection empty_stream empty_did :
      BasicError
  no_resources : BasicError
  empty_resource : ℕ → BasicError
  duplicate_resource : Bytes → BasicError

-- Go's `strings.ToLower` and `strings.TrimSpace`, whose code is not part of the repository.
pub record Strings : Type 0 where
  pub to_lower : Bytes → Bytes
  pub trim_space : Bytes → Bytes

-- `strings.TrimSpace(strings.ToLower(r))`
unfoldable pub normalize : Strings → Bytes → Bytes
normalize lib r = lib.trim_space (lib.to_lower r)

-- The loop over the resources from index `i`. The result is what it writes back to the message.
unfoldable pub validate_resources :
    Strings → ℕ → List Bytes → List Bytes → Result BasicError (List Bytes)
validate_resources lib i seen [] = ok []
validate_resources lib i seen (r ∷ rs) =
    let rr = normalize lib r in
    let rest = validate_resources lib (suc i) (rr ∷ seen) rs in
    if is_empty rr
    then err (BasicError.empty_resource i)
    else if contains rr seen
    then err (BasicError.duplicate_resource rr)
    else and_then rest (λ out. ok (rr ∷ out))

-- It normalises the resources of the message in place.
unfoldable pub validate_register_shinzo_objects :
    Strings → MsgRegisterShinzoObjects → Result BasicError MsgRegisterShinzoObjects
validate_register_shinzo_objects lib m =
    if length m.resources == 0
    then err BasicError.no_resources
    else and_then (validate_resources lib 0 [] m.resources)
        (λ out. ok (record m { resources = out }))

-- `sdk.AccAddressFromBech32` succeeds: its code is not part of the repository.
module _ (is_bech32 : Bytes → Bool) where
  unfoldable pub validate_register_sourcehub_ica :
      MsgRegisterSourcehubIca → Result BasicError (Unit {0})
  validate_register_sourcehub_ica m =
      and_then (check (is_bech32 m.signer) BasicError.invalid_signer) (λ _.
        and_then
          (check (not (is_empty m.controller_connection_id)) BasicError.empty_controller_connection)
          (λ _. check (not (is_empty m.host_connection_id)) BasicError.empty_host_connection))

  unfoldable pub validate_register_shinzo_policy :
      MsgRegisterShinzoPolicy → Result BasicError (Unit {0})
  validate_register_shinzo_policy m = check (is_bech32 m.signer) BasicError.invalid_signer

  unfoldable pub validate_request_stream_access :
      MsgRequestStreamAccess → Result BasicError (Unit {0})
  validate_request_stream_access m =
      and_then (check (is_bech32 m.signer) BasicError.invalid_signer) (λ _.
        and_then (check (not (is_empty m.stream_id)) BasicError.empty_stream)
          (λ _. check (not (is_empty m.did)) BasicError.empty_did))
