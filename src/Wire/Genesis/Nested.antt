-- ===== src/Wire/Genesis/Nested.antt =====
-- The calls of the library for the parameters in a genesis state.
use shinzohub.Prelude.{
  ◌^◌, ◌<◌, ◌≡◌, ◌≢◌, sym, ap, ◌∙◌, [], Bool, Bytes, length, Result, ok, err, Option, none, some,
  ◌⊎◌, inl, inr, ok_injective,
}
use mathlib.Core.Option.{some-injective}
use shinzohub.Sourcehub.State.{Params}
use shinzohub.Wire.Writer.{Numbers}
use shinzohub.Wire.Writer.Fills.{EncodesNumbers}
use shinzohub.Wire.Reader.{out_of_fuel, ◌>>=◌}
use shinzohub.Wire.Loop.{Message, Skip}
use shinzohub.Wire.Loop.Ends.{SkipsTag}
use shinzohub.Wire.Params.{size_params, marshal_params, unmarshal_params}
use shinzohub.Wire.Params.RoundTrip.{
  params_format, fresh_params, unmarshal_params-format, unmarshal_params-ends,
}
use shinzohub.Wire.Genesis.{NestedCalls}

-- The library calls the methods of `Params`, and `Unmarshal` may empty the message first.
pub record CallsParams (n : Numbers) (skip : Skip) (discard : Bool) (calls : NestedCalls)
    : Type 0 where
  pub sizes : (o : Option (Message Params)) → calls.options_size o ≡ size_params n o
  pub marshals :
      (o : Option (Message Params))
      → calls.options_marshal o ≡ marshal_params n calls.options_size [] o
  pub unmarshals :
      (bs : Bytes) (p : Message Params)
      → (target : Message Params) × ((target ≡ p) ⊎ (target ≡ fresh_params))
        × ((calls.options_unmarshal bs p >>= λ q. ok (some q))
            ≡ unmarshal_params skip discard bs (some target))

-- Parameters without fields that their type does not have.
abbrev pub nest : Option Params → Option (Message Params)
nest none = none
nest (some p) = some (record { body = p; unknown_fields = [] })

through_some :
    {E A : Type 0} (r : Result E A) (a : A) → (r >>= λ q. ok (some q)) ≡ ok (some a) → r ≡ ok a
through_some (ok b) a h = ap ok (some-injective b a (ok_injective _ _ h))
through_some (err e) a h = absurd (cc)

module _ (n : Numbers) (law : EncodesNumbers n) (skip : Skip) (discard : Bool) (calls : NestedCalls)
    (called : CallsParams n skip discard calls) where
  pub nested_ends :
      (bs : Bytes) (p : Message Params)
      → SkipsTag skip
      → calls.options_unmarshal bs p ≢ err out_of_fuel
  nested_ends bs p skips h =
      let (target, which, same) = called.unmarshals bs p in
      unmarshal_params-ends skip discard bs (some target) skips (sym (rw h at same))

  pub nested_ok :
      (p : Params)
      → let x : Message Params = record { body = p; unknown_fields = [] } in
        length (params_format x) < 2 ^ 63
        → calls.options_unmarshal (params_format x) fresh_params ≡ ok x
  nested_ok p h =
      let x : Message Params = record { body = p; unknown_fields = [] } in
      let (target, which, same) = called.unmarshals (params_format x) fresh_params in
      let fresh : target ≡ fresh_params = elim which [ inl e ↦ e | inr e ↦ e ] in
      through_some _ x (same ∙ rw fresh (unmarshal_params-format skip discard p h))
