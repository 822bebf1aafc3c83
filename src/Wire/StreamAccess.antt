-- ===== src/Wire/StreamAccess.antt =====
-- shinzonetwork/sourcehub/v1/tx.pulsar.go: `MsgRequestStreamAccess` on the wire.
pub mod RoundTrip
pub mod Reflect
use shinzohub.Prelude.{ℕ, List, [], ◌∷◌, ◌+◌, ◌^◌, ◌++◌, Bool, Bytes, length, Result, Option}
use shinzohub.Sourcehub.Messages.{MsgRequestStreamAccess}
use shinzohub.Wire.Reader.{Fault, Cursor, text_case, number_case, select}
use shinzohub.Wire.Writer.{
  Halt, Buffer, Numbers, ◌>=>◌, put, put_text, size_text, put_number, size_number, widen, size_of,
  marshal_of,
}
use shinzohub.Wire.Loop.{Message, Skip, unmarshal_of}

module _ (n : Numbers) where
  unfoldable pub total_stream_access : Message MsgRequestStreamAccess → ℕ
  total_stream_access x =
      size_text n x.body.signer
      + (size_number n (widen x.body.resource)
          + (size_text n x.body.stream_id
              + (size_text n x.body.did
                  + (size_number n x.body.expiration + (length x.unknown_fields)))))

  unfoldable pub size_stream_access : Option (Message MsgRequestStreamAccess) → ℕ
  size_stream_access = size_of total_stream_access

  unfoldable pub write_stream_access : Message MsgRequestStreamAccess → Buffer → Result Halt Buffer
  write_stream_access x =
      put x.unknown_fields
      >=> put_number n 0x28 x.body.expiration
      >=> put_text n 0x22 x.body.did
      >=> put_text n 0x1a x.body.stream_id
      >=> put_number n 0x10 (widen x.body.resource)
      >=> put_text n 0x0a x.body.signer

  unfoldable pub marshal_stream_access :
      (Option (Message MsgRequestStreamAccess) → ℕ)
      → Bytes
      → Option (Message MsgRequestStreamAccess)
      → Result Halt Bytes
  marshal_stream_access options_size = marshal_of options_size write_stream_access

unfoldable pub switch_stream_access :
    ℕ
    → ℕ
    → MsgRequestStreamAccess
    → Cursor
    → Option (Result Fault (MsgRequestStreamAccess × Cursor))
switch_stream_access number wire_type x c = select number (
    (1, text_case number wire_type c (λ s. record x { signer = s }))
    ∷ (2, number_case number wire_type (2 ^ 32) c (λ v. record x { resource = v }))
    ∷ (3, text_case number wire_type c (λ s. record x { stream_id = s }))
    ∷ (4, text_case number wire_type c (λ s. record x { did = s }))
    ∷ (5, number_case number wire_type (2 ^ 64) c (λ v. record x { expiration = v }))
    ∷ [])

unfoldable pub unmarshal_stream_access :
    Skip
    → Bool
    → Bytes
    → Option (Message MsgRequestStreamAccess)
    → Result Fault (Option (Message MsgRequestStreamAccess))
unmarshal_stream_access skip discard = unmarshal_of skip discard switch_stream_access
