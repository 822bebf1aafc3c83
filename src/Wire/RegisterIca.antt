-- ===== src/Wire/RegisterIca.antt =====
-- shinzonetwork/sourcehub/v1/tx.pulsar.go: `MsgRegisterSourcehubICA` on the wire.
pub mod RoundTrip
pub mod Reflect
use shinzohub.Prelude.{ℕ, List, [], ◌∷◌, ◌+◌, ◌^◌, ◌++◌, Bool, Bytes, length, Result, Option}
use shinzohub.Sourcehub.Messages.{MsgRegisterSourcehubIca}
use shinzohub.Wire.Reader.{Fault, Cursor, text_case, select}
use shinzohub.Wire.Writer.{
  Halt, Buffer, Numbers, ◌>=>◌, put, put_text, size_text, size_of, marshal_of,
}
use shinzohub.Wire.Loop.{Message, Skip, unmarshal_of}

module _ (n : Numbers) where
  unfoldable pub total_register_ica : Message MsgRegisterSourcehubIca → ℕ
  total_register_ica x =
      size_text n x.body.signer
      + (size_text n x.body.controller_connection_id
          + (size_text n x.body.host_connection_id + (length x.unknown_fields)))

  unfoldable pub size_register_ica : Option (Message MsgRegisterSourcehubIca) → ℕ
  size_register_ica = size_of total_register_ica

  unfoldable pub write_register_ica : Message MsgRegisterSourcehubIca → Buffer → Result Halt Buffer
  write_register_ica x =
      put x.unknown_fields
      >=> put_text n 0x1a x.body.host_connection_id
      >=> put_text n 0x12 x.body.controller_connection_id
      >=> put_text n 0x0a x.body.signer

  unfoldable pub marshal_register_ica :
      (Option (Message MsgRegisterSourcehubIca) → ℕ)
      → Bytes
      → Option (Message MsgRegisterSourcehubIca)
      → Result Halt Bytes
  marshal_register_ica options_size = marshal_of options_size write_register_ica

unfoldable pub switch_register_ica :
    ℕ
    → ℕ
    → MsgRegisterSourcehubIca
    → Cursor
    → Option (Result Fault (MsgRegisterSourcehubIca × Cursor))
switch_register_ica number wire_type x c = select number (
    (1, text_case number wire_type c (λ s. record x { signer = s }))
    ∷ (2, text_case number wire_type c (λ s. record x { controller_connection_id = s }))
    ∷ (3, text_case number wire_type c (λ s. record x { host_connection_id = s }))
    ∷ [])

unfoldable pub unmarshal_register_ica :
    Skip
    → Bool
    → Bytes
    → Option (Message MsgRegisterSourcehubIca)
    → Result Fault (Option (Message MsgRegisterSourcehubIca))
unmarshal_register_ica skip discard = unmarshal_of skip discard switch_register_ica
