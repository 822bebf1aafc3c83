-- ===== src/Wire/RegisterObjects.antt =====
-- shinzonetwork/sourcehub/v1/tx.pulsar.go: `MsgRegisterShinzoObjects` on the wire.
pub mod RoundTrip
use shinzohub.Prelude.{ℕ, List, [], ◌∷◌, ◌+◌, ◌^◌, ◌++◌, Bool, Bytes, length, Result, Option}
use shinzohub.Sourcehub.Messages.{MsgRegisterShinzoObjects}
use shinzohub.Wire.Reader.{Fault, Cursor, text_case, select}
use shinzohub.Wire.Writer.{
  Halt, Buffer, Numbers, ◌>=>◌, put, put_text, size_text, put_texts, size_texts, size_of,
  marshal_of,
}
use shinzohub.Wire.Loop.{Message, Skip, unmarshal_of}

module _ (n : Numbers) where
  unfoldable pub total_register_objects : Message MsgRegisterShinzoObjects → ℕ
  total_register_objects x =
      size_text n x.body.signer + (size_texts n x.body.resources + (length x.unknown_fields))

  unfoldable pub size_register_objects : Option (Message MsgRegisterShinzoObjects) → ℕ
  size_register_objects = size_of total_register_objects

  unfoldable pub write_register_objects :
      Message MsgRegisterShinzoObjects → Buffer → Result Halt Buffer
  write_register_objects x =
      put x.unknown_fields >=> put_texts n 0x12 x.body.resources >=> put_text n 0x0a x.body.signer

  unfoldable pub marshal_register_objects :
      (Option (Message MsgRegisterShinzoObjects) → ℕ)
      → Bytes
      → Option (Message MsgRegisterShinzoObjects)
      → Result Halt Bytes
  marshal_register_objects options_size = marshal_of options_size write_register_objects

unfoldable pub switch_register_objects :
    ℕ
    → ℕ
    → MsgRegisterShinzoObjects
    → Cursor
    → Option (Result Fault (MsgRegisterShinzoObjects × Cursor))
switch_register_objects number wire_type x c = select number (
    (1, text_case number wire_type c (λ s. record x { signer = s }))
    ∷ (2, text_case number wire_type c (λ s. record x { resources = x.resources ++ (s ∷ []) }))
    ∷ [])

unfoldable pub unmarshal_register_objects :
    Skip
    → Bool
    → Bytes
    → Option (Message MsgRegisterShinzoObjects)
    → Result Fault (Option (Message MsgRegisterShinzoObjects))
unmarshal_register_objects skip discard = unmarshal_of skip discard switch_register_objects
