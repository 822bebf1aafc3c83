-- ===== src/Wire/Params/RoundTrip.antt =====
-- `Params` is read back from what was written of it.
use shinzohub.Prelude.{
  ℕ, ◌^◌, ◌<◌, ◌≡◌, ◌≢◌, refl, arith, [], ◌++◌, Bool, Bytes, length, ok, err, Option, some,
}
use shinzohub.Sourcehub.State.{Params}
use shinzohub.Wire.Writer.{Numbers}
use shinzohub.Wire.Writer.Fills.{EncodesNumbers, text}
use shinzohub.Wire.Writer.Writes.{
  Writes, put-Writes, then-Writes, text-Writes, marshal_of-Writes, size_of-Writes,
}
use shinzohub.Wire.Reader.{out_of_fuel, select}
use shinzohub.Wire.Reader.Within.{text_case-Within, select-Moves}
use shinzohub.Wire.Loop.{Message, Skip}
use shinzohub.Wire.Loop.Ends.{Progresses, SkipsTag, unmarshal_of-ends}
use shinzohub.Wire.Loop.Parses.{nothing-Parses, text-Parses, unmarshal_of-Parses}
use shinzohub.Wire.Params.{
  size_params, write_params, total_params, marshal_params, switch_params, unmarshal_params,
}

-- The format of `Params`.
unfoldable pub params_format : Message Params → Bytes
params_format x = text 0x0a x.body.admin ++ x.unknown_fields

abbrev pub fresh_params : Message Params
fresh_params = record { body = record { admin = [] }; unknown_fields = [] }

switch_params-Progresses : Progresses switch_params
unfolding switch_params
switch_params-Progresses number wire_type x c =
    select-Moves _ number _ (text_case-Within number wire_type c _, tt)

pub unmarshal_params-ends :
    (skip : Skip) (discard : Bool) (input : Bytes) (o : Option (Message Params))
    → SkipsTag skip
    → unmarshal_params skip discard input o ≢ err out_of_fuel
unfolding unmarshal_params
unmarshal_params-ends skip discard input o law =
    unmarshal_of-ends skip law discard switch_params switch_params-Progresses input o

module _ (n : Numbers) (law : EncodesNumbers n) where
  params-Writes :
      (x : Message Params) → Writes (write_params n x) (total_params n x) (params_format x)
  unfolding write_params total_params params_format
  params-Writes x =
      then-Writes _ _ _ _ _ _ (put-Writes x.unknown_fields) (text-Writes n law 0x0a x.body.admin)

  pub size_params-format :
      (x : Message Params)
      → length (params_format x) < 2 ^ 63
      → size_params n (some x) ≡ length (params_format x)
  unfolding size_params
  size_params-format x h = size_of-Writes _ (write_params n) _ x (params-Writes x) h

  pub marshal_params-format :
      (options_size : Option (Message Params) → ℕ) (out : Bytes) (x : Message Params)
      → options_size (some x) ≡ size_params n (some x)
      → length (params_format x) < 2 ^ 63
      → marshal_params n options_size out (some x) ≡ ok (out ++ params_format x)
  unfolding marshal_params size_params
  marshal_params-format options_size out x own h =
      marshal_of-Writes (total_params n) (write_params n) _ x options_size out own (params-Writes x)
        h

pub unmarshal_params-format :
    (skip : Skip) (discard : Bool) (p : Params)
    → let x : Message Params = record { body = p; unknown_fields = [] } in
      length (params_format x) < 2 ^ 63
      → unmarshal_params skip discard (params_format x) (some fresh_params) ≡ ok (some x)
unfolding unmarshal_params params_format switch_params select
unmarshal_params-format skip discard p h =
    unmarshal_of-Parses skip discard switch_params [] fresh_params.body p _ h (
      text-Parses skip discard switch_params [] 1 p.admin [] fresh_params.body p
        (λ s. record { admin = s }) (omega arith) (omega arith) (λ c. refl) refl
        (nothing-Parses skip discard switch_params [] p))
