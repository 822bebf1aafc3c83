-- ===== src/Tests/WireGenesis.antt =====
-- The theorems on the wire format of the genesis state, with a library that calls the methods of its
-- parameters.
use shinzohub.Prelude.{
  ◌≡◌, refl, arith, [], true, Bytes, Result, ok, err, Option, none, some, inl, codes,
}
use shinzohub.Sourcehub.State.{Params}
use shinzohub.Wire.Reader.{Fault, ◌>>=◌}
use shinzohub.Wire.Reader.Varint.{varint, groups}
use shinzohub.Wire.Writer.Fills.{field, text}
use shinzohub.Wire.Loop.{Message, Restores, known, unmarshal_of}
use shinzohub.Wire.Params.{size_params, marshal_params, unmarshal_params}
use shinzohub.Wire.RegisterObjects.{unmarshal_register_objects}
use shinzohub.Wire.StreamAccess.{unmarshal_stream_access}
use shinzohub.Wire.Genesis.{
  WireGenesis, NestedCalls, size_genesis, marshal_genesis, unmarshal_genesis,
}
use shinzohub.Wire.Genesis.Nested.{CallsParams, nest}
use shinzohub.Wire.Genesis.Format.{genesis_format, nested_format, fresh_genesis}
use shinzohub.Wire.Genesis.RoundTrip.{genesis-Restores}
use shinzohub.Wire.Params.RoundTrip.{params_format}
use shinzohub.Wire.RegisterIca.{unmarshal_register_ica}
use shinzohub.Wire.RegisterPolicy.{unmarshal_register_policy}
use shinzohub.Wire.Responses.{
  unmarshal_register_ica_response, unmarshal_register_policy_response,
  unmarshal_register_objects_response, unmarshal_stream_access_response,
}
use shinzohub.Wire.Ends.{Returns, unmarshal-Returns}
use shinzohub.Tests.Wire.{toy_numbers, toy_numbers-EncodesNumbers, toy_skip, toy_skip-SkipsTag}

-- What a message is made into, through a pointer that is not nil.
abbrev target_of :
    Message Params → Result Fault (Option (Message Params)) → Result Fault (Message Params)
target_of p (ok (some q)) = ok q
target_of p (ok none) = ok p
target_of p (err e) = err e

through :
    (p : Message Params) (r : Result Fault (Message Params))
    → (target_of p (r >>= λ q. ok (some q)) >>= λ q. ok (some q)) ≡ (r >>= λ q. ok (some q))
through p (ok q) = refl
through p (err e) = refl

target_of_same :
    (p : Message Params) (bs : Bytes)
    → (target_of p (unmarshal_params toy_skip true bs (some p)) >>= λ q. ok (some q))
      ≡ unmarshal_params toy_skip true bs (some p)
unfolding unmarshal_params unmarshal_of
target_of_same p bs = through p _

-- A library that calls the methods of `Params`, and merges.
abbrev toy_calls : NestedCalls
toy_calls = record {
  options_size = size_params toy_numbers;
  options_marshal = marshal_params toy_numbers (size_params toy_numbers) [];
  options_unmarshal = λ bs p. target_of p (unmarshal_params toy_skip true bs (some p));
}

toy_calls-CallsParams : CallsParams toy_numbers toy_skip true toy_calls
toy_calls-CallsParams = record {
  sizes = λ o. refl;
  marshals = λ o. refl;
  unmarshals = λ bs p. (p, inl refl, target_of_same p bs);
}

abbrev toy_genesis : WireGenesis
toy_genesis = record {
  controller_connection_id = codes "connection-0";
  host_connection_id = codes "connection-1";
  version = [];
  encoding = codes "proto3";
  tx_type = [];
  policy_id = codes "p";
  params = none;
}

abbrev toy_admin : Params
toy_admin = record { admin = codes "shinzo1a" }

genesis-Restores_example :
    Restores
      (size_genesis toy_numbers toy_calls)
      (marshal_genesis toy_numbers toy_calls (size_genesis toy_numbers toy_calls))
      (unmarshal_genesis toy_calls toy_skip true)
      fresh_genesis
      (known (record toy_genesis { params = nest (some toy_admin) }))
unfolding genesis_format nested_format params_format text field varint groups
genesis-Restores_example =
    genesis-Restores toy_numbers toy_numbers-EncodesNumbers toy_skip true toy_calls
      toy_calls-CallsParams (size_genesis toy_numbers toy_calls) toy_genesis (some toy_admin) refl
      (omega arith)

unmarshal-Returns_example :
    Returns (unmarshal_register_ica toy_skip true)
    × Returns (unmarshal_register_policy toy_skip true)
    × Returns (unmarshal_register_objects toy_skip true)
    × Returns (unmarshal_stream_access toy_skip true)
    × Returns (unmarshal_register_ica_response toy_skip true)
    × Returns (unmarshal_register_policy_response toy_skip true)
    × Returns (unmarshal_register_objects_response toy_skip true)
    × Returns (unmarshal_stream_access_response toy_skip true)
    × Returns (unmarshal_params toy_skip true)
    × Returns (unmarshal_genesis toy_calls toy_skip true)
unmarshal-Returns_example =
    unmarshal-Returns toy_numbers toy_numbers-EncodesNumbers toy_skip toy_skip-SkipsTag true
      toy_calls toy_calls-CallsParams
