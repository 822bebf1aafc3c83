-- ===== src/Cli.antt =====
-- The transaction commands of x/sourcehub/client/cli/tx.go: what each makes of its arguments, up to the
-- message that is handed to the transaction factory. The command framework, the client context and
-- the factory are code of other repositories.
pub mod Objects
pub mod Numbers
use shinzohub.Prelude.{
  contains, ℕ, zero, suc, ◌+◌, ◌-◌, ◌*◌, ◌%◌, ◌^◌, Bytes, Bool, true, false, Option, none, some,
  List, [], ◌∷◌, ◌++◌, Result, ok, err, and_then, map_err, check, is_empty, leb, ltb, ◌==◌, ◌&&◌,
  ◌||◌, if◌then◌else◌, length,
}
use shinzohub.Sourcehub.State.{LibError}
use shinzohub.Sourcehub.Messages.{
  MsgRegisterSourcehubIca, MsgRegisterShinzoPolicy, MsgRegisterShinzoObjects,
  MsgRequestStreamAccess, BasicError, Strings, normalize, validate_register_shinzo_objects,
  validate_register_sourcehub_ica, validate_register_shinzo_policy, validate_request_stream_access,
}
use shinzohub.Sourcehub.Server.{Msg}

-- What a command needs of the command line: the address it signs with, the bech32 check, Go's folding
-- and trimming of texts and the transaction factory.
pub record Client : Type 0 where
  pub from_address : Result LibError Bytes
  pub is_bech32 : Bytes → Bool
  pub strings : Strings
  pub broadcast : Msg → Result LibError (Unit {0})

pub data CliError : Type 0 where
  arg_count invalid_resource no_resources : CliError
  client_context broadcast_failed : LibError → CliError
  invalid : BasicError → CliError

-- The number of arguments is checked before the command runs.
abbrev pub send : Client → Msg → Result CliError Msg
send cl msg = and_then (map_err CliError.broadcast_failed (cl.broadcast msg)) (λ _. ok msg)

unfoldable pub cmd_register_sourcehub_ica : Client → List Bytes → Result CliError Msg
cmd_register_sourcehub_ica cl (controller ∷ host ∷ []) =
    and_then (map_err CliError.client_context cl.from_address) (λ from.
      let m : MsgRegisterSourcehubIca = record {
        signer = from;
        controller_connection_id = controller;
        host_connection_id = host;
      } in
      and_then (map_err CliError.invalid (validate_register_sourcehub_ica cl.is_bech32 m))
        (λ _. send cl (Msg.sourcehub_ica m)))
cmd_register_sourcehub_ica cl _ = err CliError.arg_count

-- The magnitude that decimal digits write, after `n`.
unfoldable pub digits_value : ℕ → Bytes → Option ℕ
digits_value n [] = some n
digits_value n (c ∷ cs) =
    let rest = digits_value (n * 10 + (c - 48)) cs in
    if leb b'0' c && leb c b'9' then rest else none

unfoldable pub magnitude : Bytes → Option ℕ
unfolding digits_value
magnitude s = if is_empty s then none else digits_value 0 s

-- An `int`: whether it is negative, and its magnitude.
abbrev pub Int64 : Type 0
Int64 = Bool × ℕ

-- An `int` has 64 bits.
unfoldable pub in_range : Bool → Option ℕ → Option Int64
in_range negative none = none
in_range false (some n) = if ltb n (2 ^ 63) then some (false, n) else none
in_range true (some n) = if leb n (2 ^ 63) then some (true, n) else none

-- `strconv.Atoi`
unfoldable pub atoi : Bytes → Option Int64
unfolding magnitude in_range
atoi [] = none
atoi (c ∷ cs) =
    if c == b'-'
    then in_range true (magnitude cs)
    else if c == b'+'
    then in_range false (magnitude cs)
    else in_range false (magnitude (c ∷ cs))

-- `types.Resource(n)`, the conversion of an `int` to an `int32`, as a bit pattern.
unfoldable pub to_resource : Int64 → ℕ
to_resource (false, n) = n % 2 ^ 32
to_resource (true, n) = (2 ^ 32 - n % 2 ^ 32) % 2 ^ 32

unfoldable pub request_stream_access_message : Client → ℕ → Bytes → Bytes → Result CliError Msg
request_stream_access_message cl resource stream did =
    and_then (map_err CliError.client_context cl.from_address) (λ from.
      let m : MsgRequestStreamAccess = record {
        signer = from;
        resource = resource;
        stream_id = stream;
        did = did;
        expiration = 0;
      } in
      and_then (map_err CliError.invalid (validate_request_stream_access cl.is_bech32 m))
        (λ _. send cl (Msg.stream_access m)))

unfoldable pub cmd_request_stream_access : Client → List Bytes → Result CliError Msg
unfolding request_stream_access_message
cmd_request_stream_access cl (resource ∷ stream ∷ did ∷ []) = elim (atoi resource) [
  | none ↦ err CliError.invalid_resource
  | some n ↦ request_stream_access_message cl (to_resource n) stream did
]
cmd_request_stream_access cl _ = err CliError.arg_count

unfoldable pub cmd_register_shinzo_policy : Client → List Bytes → Result CliError Msg
cmd_register_shinzo_policy cl [] =
    and_then (map_err CliError.client_context cl.from_address) (λ from.
      and_then
        (map_err CliError.invalid
          (validate_register_shinzo_policy cl.is_bech32 (record { signer = from })))
        (λ _. send cl (Msg.shinzo_policy (record { signer = from }))))
cmd_register_shinzo_policy cl _ = err CliError.arg_count

-- The loop that normalises the arguments and drops the empty and the repeated ones; `resources` are
-- those so far, which are the ones seen.
unfoldable pub collect_resources : Strings → List Bytes → List Bytes → List Bytes
collect_resources lib resources [] = resources
collect_resources lib resources (a ∷ more) =
    let r = normalize lib a in
    collect_resources lib
      (if is_empty r
        then resources
        else if contains r resources
        then resources
        else resources ++ r ∷ [])
      more

unfoldable pub cmd_register_objects : Client → List Bytes → Result CliError Msg
cmd_register_objects cl [] = err CliError.arg_count
cmd_register_objects cl (a ∷ more) =
    and_then (map_err CliError.client_context cl.from_address) (λ from.
      let resources = collect_resources cl.strings [] (a ∷ more) in
      if length resources == 0
      then err CliError.no_resources
      else and_then
          (map_err CliError.invalid (
            validate_register_shinzo_objects cl.strings
              (record { signer = from; resources = resources })))
          (λ m. send cl (Msg.shinzo_objects m)))
