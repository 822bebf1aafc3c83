-- ===== src/Wire/RegisterPolicy.antt =====
-- shinzonetwork/sourcehub/v1/tx.pulsar.go: `MsgRegisterShinzoPolicy` on the wire.
pub mod RoundTrip
pub mod Reflect
use shinzohub.Prelude.{ℕ, List, [], ◌∷◌, ◌+◌, ◌^◌, ◌++◌, Bool, Bytes, length, Result, Option}
use shinzohub.Sourcehub.Messages.{MsgRegisterShinzoPolicy}
use shinzohub.Wire.Reader.{Fault, Cursor, text_case, select}
use shinzohub.Wire.Writer.{
  Halt, Buffer, Numbers, ◌>=>◌, put, put_text, size_text, size_of, marshal_of,
}
use shinzohub.Wire.Loop.{Message, Skip, unmarshal_of}

module _ (n : Numbers) where
  unfoldable pub total_register_policy : Message MsgRegisterShinzoPolicy → ℕ
  total_register_policy x = size_text n x.body.signer + (length x.unknown_fields)

  unfoldable pub size_register_policy : Option (Message MsgRegisterShinzoPolicy) → ℕ
  size_register_policy = size_of total_register_policy

  unfoldable pub write_register_policy :
      Message MsgRegisterShinzoPolicy → Buffer → Result Halt Buffer
  write_register_policy x = put x.unknown_fields >=> put_text n 0x0a x.body.signer

  unfoldable pub marshal_register_policy :
      (Option (Message MsgRegisterShinzoPolicy) → ℕ)
      → Bytes
      → Option (Message MsgRegisterShinzoPolicy)
      → Result Halt Bytes
  marshal_register_policy options_size = marshal_of options_size write_register_policy

unfoldable pub switch_register_policy :
    ℕ
    → ℕ
    → MsgRegisterShinzoPolicy
    → Cursor
    → Option (Result Fault (MsgRegisterShinzoPolicy × Cursor))
switch_register_policy number wire_type x c =
    select number ((1, text_case number wire_type c (λ s. record x { signer = s })) ∷ [])

unfoldable pub unmarshal_register_policy :
    Skip
    → Bool
    → Bytes
    → Option (Message MsgRegisterShinzoPolicy)
    → Result Fault (Option (Message MsgRegisterShinzoPolicy))
unmarshal_register_policy skip discard = unmarshal_of skip discard switch_register_policy
