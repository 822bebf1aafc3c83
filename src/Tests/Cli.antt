-- ===== src/Tests/Cli.antt =====
-- The theorems on the commands of x/sourcehub/client/cli/tx.go.
use shinzohub.Prelude.{◌%◌, ◌^◌, Bytes, true, [], ◌∷◌, ok, codes, format_uint, ◌≡◌, refl, arith}
use shinzohub.Sourcehub.Messages.{validate_request_stream_access}
use shinzohub.Sourcehub.Server.{Msg}
use shinzohub.Cli.{
  Client, CliError, collect_resources, cmd_register_objects, cmd_request_stream_access,
  request_stream_access_message,
}
use shinzohub.Cli
use shinzohub.Tests.Ascii.{ascii}
use shinzohub.Cli.Numbers.{atoi-format_uint, request_stream_wraps}

abbrev toy_cli : Client
toy_cli = record {
  from_address = ok (codes "addr");
  is_bech32 = λ a. true;
  strings = ascii;
  broadcast = λ m. ok tt;
}

-- 2³² + 1 is taken for 1.
abbrev wrapped : Msg
wrapped = Msg.stream_access (record {
  signer = codes "addr";
  resource = 1;
  stream_id = codes "view_1";
  did = codes "did:x";
  expiration = 0;
})

sent_wrapped :
    cmd_request_stream_access toy_cli (format_uint 4294967297 ∷ codes "view_1" ∷ codes "did:x" ∷ [])
    ≡ ok wrapped
unfolding cmd_request_stream_access request_stream_access_message Cli.to_resource
    validate_request_stream_access
sent_wrapped = rw (cmd_request_stream_access, atoi-format_uint 4294967297 (omega arith)) refl

request_stream_wraps_example :
    (from : Bytes) × (wrapped
      ≡ Msg.stream_access (record {
        signer = from;
        resource = 4294967297 % 2 ^ 32;
        stream_id = codes "view_1";
        did = codes "did:x";
        expiration = 0;
      }))
request_stream_wraps_example =
    request_stream_wraps toy_cli 4294967297 (codes "view_1") (codes "did:x") wrapped (omega arith)
      sent_wrapped
