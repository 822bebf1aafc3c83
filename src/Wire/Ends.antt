-- ===== src/Wire/Ends.antt =====
-- The loops of all messages of shinzonetwork/sourcehub/v1 end.
use shinzohub.Prelude.{◌≢◌, Bool, Bytes, Result, err, Option}
use shinzohub.Wire.Reader.{Fault, out_of_fuel}
use shinzohub.Wire.Writer.{Numbers}
use shinzohub.Wire.Writer.Fills.{EncodesNumbers}
use shinzohub.Wire.Loop.{Skip}
use shinzohub.Wire.Loop.Ends.{SkipsTag}
use shinzohub.Wire.Params.{unmarshal_params}
use shinzohub.Wire.Params.RoundTrip.{unmarshal_params-ends}
use shinzohub.Wire.RegisterIca.{unmarshal_register_ica}
use shinzohub.Wire.RegisterIca.RoundTrip.{unmarshal_register_ica-ends}
use shinzohub.Wire.RegisterPolicy.{unmarshal_register_policy}
use shinzohub.Wire.RegisterPolicy.RoundTrip.{unmarshal_register_policy-ends}
use shinzohub.Wire.RegisterObjects.{unmarshal_register_objects}
use shinzohub.Wire.RegisterObjects.RoundTrip.{unmarshal_register_objects-ends}
use shinzohub.Wire.StreamAccess.{unmarshal_stream_access}
use shinzohub.Wire.StreamAccess.RoundTrip.{unmarshal_stream_access-ends}
use shinzohub.Wire.Genesis.{NestedCalls, unmarshal_genesis}
use shinzohub.Wire.Genesis.Nested.{CallsParams}
use shinzohub.Wire.Genesis.RoundTrip.{unmarshal_genesis-ends}
use shinzohub.Wire.Responses.{
  unmarshal_register_ica_response, unmarshal_register_policy_response,
  unmarshal_register_objects_response, unmarshal_stream_access_response, unmarshal_empty-ends,
}

-- The loop of a method ends on every input and every message to fill.
abbrev pub Returns : {M : Type 0} → (Bytes → Option M → Result Fault (Option M)) → Type 0
Returns {M = M} unmarshal = (input : Bytes) (o : Option M) → unmarshal input o ≢ err out_of_fuel

-- If `runtime.Skip` takes a byte at least where it succeeds, the `unmarshal` of each of the four
-- requests, the four responses, the parameters and the genesis state ends on every input, whether
-- unknown fields are kept or not. For the genesis state, the calls that it makes for its
-- parameters are those of their own methods.
pub unmarshal-Returns :
    (n : Numbers) (law : EncodesNumbers n) (skip : Skip) (skips : SkipsTag skip) (discard : Bool)
    (calls : NestedCalls)
    → CallsParams n skip discard calls
    → Returns (unmarshal_register_ica skip discard)
      × Returns (unmarshal_register_policy skip discard)
      × Returns (unmarshal_register_objects skip discard)
      × Returns (unmarshal_stream_access skip discard)
      × Returns (unmarshal_register_ica_response skip discard)
      × Returns (unmarshal_register_policy_response skip discard)
      × Returns (unmarshal_register_objects_response skip discard)
      × Returns (unmarshal_stream_access_response skip discard)
      × Returns (unmarshal_params skip discard)
      × Returns (unmarshal_genesis calls skip discard)
unfolding unmarshal_register_ica_response unmarshal_register_policy_response
    unmarshal_register_objects_response unmarshal_stream_access_response
unmarshal-Returns n law skip skips discard calls called = (
  λ input o. unmarshal_register_ica-ends skip discard input o skips,
  λ input o. unmarshal_register_policy-ends skip discard input o skips,
  λ input o. unmarshal_register_objects-ends skip discard input o skips,
  λ input o. unmarshal_stream_access-ends skip discard input o skips,
  λ input o. unmarshal_empty-ends skip discard input o skips,
  λ input o. unmarshal_empty-ends skip discard input o skips,
  λ input o. unmarshal_empty-ends skip discard input o skips,
  λ input o. unmarshal_empty-ends skip discard input o skips,
  λ input o. unmarshal_params-ends skip discard input o skips,
  λ input o. unmarshal_genesis-ends n law skip discard calls called input o skips,
)
