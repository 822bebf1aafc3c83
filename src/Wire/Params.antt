-- ===== src/Wire/Params.antt =====
-- shinzonetwork/sourcehub/v1/params.pulsar.go: `Params` on the wire.
pub mod RoundTrip
pub mod Reflect
use shinzohub.Prelude.{
  ℕ, List, [], ◌∷◌, ◌+◌, Bool, Bytes, length, Result, ok, Option, none, some, ◌≡◌, refl, ◌++◌,
}
use shinzohub.Sourcehub.State.{Params}
use shinzohub.Wire.Reader.{Fault, Cursor, text_case, select}
use shinzohub.Wire.Writer.{
  Halt, Buffer, Numbers, ◌>=>◌, put, put_text, size_text, size_of, marshal_of,
}
use shinzohub.Wire.Loop.{Message, Skip, unmarshal_of}

module _ (n : Numbers) where
  unfoldable pub total_params : Message Params → ℕ
  total_params x = size_text n x.body.admin + length x.unknown_fields

  unfoldable pub size_params : Option (Message Params) → ℕ
  size_params = size_of total_params

  unfoldable pub write_params : Message Params → Buffer → Result Halt Buffer
  write_params x = put x.unknown_fields >=> put_text n 0x0a x.body.admin

  unfoldable pub marshal_params :
      (Option (Message Params) → ℕ) → Bytes → Option (Message Params) → Result Halt Bytes
  marshal_params options_size = marshal_of options_size write_params

unfoldable pub switch_params : ℕ → ℕ → Params → Cursor → Option (Result Fault (Params × Cursor))
switch_params number wire_type x c =
    select number ((1, text_case number wire_type c (λ s. record x { admin = s })) ∷ [])

unfoldable pub unmarshal_params :
    Skip → Bool → Bytes → Option (Message Params) → Result Fault (Option (Message Params))
unmarshal_params skip discard = unmarshal_of skip discard switch_params
