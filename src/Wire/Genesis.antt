-- ===== src/Wire/Genesis.antt =====
-- shinzonetwork/sourcehub/v1/genesis.pulsar.go: `GenesisState` on the wire, with `Params` in it.
pub mod Nested
pub mod Format
pub mod RoundTrip
use shinzohub.Prelude.{
  ℕ, List, [], ◌∷◌, ◌+◌, ◌^◌, ◌==◌, Bool, Bytes, length, if◌then◌else◌, Result, ok, err, and_then,
  Option, none, some,
}
use shinzohub.Sourcehub.State.{Params}
use shinzohub.Wire.Reader.{Fault, wrong_wire_type, Cursor, read_bytes, text_case, select, ◌>>=◌}
use shinzohub.Wire.Writer.{
  Halt, Buffer, Numbers, ◌>=>◌, put, put_text, size_text, put_field, size_field, size_of,
  marshal_of,
}
use shinzohub.Wire.Loop.{Message, Skip, unmarshal_of}
use shinzohub.Wire.Params.RoundTrip.{fresh_params}

-- `GenesisState`, whose `Params` is a pointer.
pub record WireGenesis : Type 0 where
  pub controller_connection_id : Bytes
  pub host_connection_id : Bytes
  pub version : Bytes
  pub encoding : Bytes
  pub tx_type : Bytes
  pub policy_id : Bytes
  pub params : Option (Message Params)

-- `options.Size`, `options.Marshal` and `options.Unmarshal` at the message in `Params`.
pub record NestedCalls : Type 0 where
  pub options_size : Option (Message Params) → ℕ
  pub options_marshal : Option (Message Params) → Result Halt Bytes
  pub options_unmarshal : Bytes → Message Params → Result Fault (Message Params)

module _ (n : Numbers) (calls : NestedCalls) where
  -- `if x.Params != nil`
  unfoldable pub size_nested : Option (Message Params) → ℕ
  size_nested none = 0
  size_nested (some p) = size_field n (calls.options_size (some p))

  unfoldable pub put_nested : Option (Message Params) → Buffer → Result Halt Buffer
  put_nested none w = ok w
  put_nested (some p) w =
      and_then (calls.options_marshal (some p)) (λ encoded. put_field n 0x3a encoded w)

  unfoldable pub total_genesis : Message WireGenesis → ℕ
  total_genesis x =
      size_text n x.body.controller_connection_id
      + (size_text n x.body.host_connection_id
          + (size_text n x.body.version
              + (size_text n x.body.encoding
                  + (size_text n x.body.tx_type
                      + (size_text n x.body.policy_id
                          + (size_nested x.body.params + length x.unknown_fields))))))

  unfoldable pub size_genesis : Option (Message WireGenesis) → ℕ
  size_genesis = size_of total_genesis

  unfoldable pub write_genesis : Message WireGenesis → Buffer → Result Halt Buffer
  write_genesis x =
      put x.unknown_fields
      >=> put_nested x.body.params
      >=> put_text n 0x32 x.body.policy_id
      >=> put_text n 0x2a x.body.tx_type
      >=> put_text n 0x22 x.body.encoding
      >=> put_text n 0x1a x.body.version
      >=> put_text n 0x12 x.body.host_connection_id
      >=> put_text n 0x0a x.body.controller_connection_id

  unfoldable pub marshal_genesis :
      (Option (Message WireGenesis) → ℕ) → Bytes → Option (Message WireGenesis) → Result Halt Bytes
  marshal_genesis own_size = marshal_of own_size write_genesis

module _ (calls : NestedCalls) where
  -- `if x.Params == nil { x.Params = &Params{} }`
  abbrev params_target : Option (Message Params) → Message Params
  params_target none = fresh_params
  params_target (some p) = p

  unfoldable pub params_case : ℕ → ℕ → WireGenesis → Cursor → Result Fault (WireGenesis × Cursor)
  params_case number wire_type x c =
      if wire_type == 2
      then (do
        p ← read_bytes c
        q ← calls.options_unmarshal p.0 (params_target x.params)
        ok (record x { params = some q }, p.1))
      else err (wrong_wire_type number wire_type)

  unfoldable pub switch_genesis :
      ℕ → ℕ → WireGenesis → Cursor → Option (Result Fault (WireGenesis × Cursor))
  switch_genesis number wire_type x c = select number (
      (1, text_case number wire_type c (λ s. record x { controller_connection_id = s }))
      ∷ (2, text_case number wire_type c (λ s. record x { host_connection_id = s }))
      ∷ (3, text_case number wire_type c (λ s. record x { version = s }))
      ∷ (4, text_case number wire_type c (λ s. record x { encoding = s }))
      ∷ (5, text_case number wire_type c (λ s. record x { tx_type = s }))
      ∷ (6, text_case number wire_type c (λ s. record x { policy_id = s }))
      ∷ (7, params_case number wire_type x c)
      ∷ [])

  unfoldable pub unmarshal_genesis :
      Skip
      → Bool
      → Bytes
      → Option (Message WireGenesis)
      → Result Fault (Option (Message WireGenesis))
  unmarshal_genesis skip discard = unmarshal_of skip discard switch_genesis
