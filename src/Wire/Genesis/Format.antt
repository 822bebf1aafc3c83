-- ===== src/Wire/Genesis/Format.antt =====
-- The format of `GenesisState`, and what `size` and `marshal` have to do with it.
use shinzohub.Prelude.{
  ℕ, ◌^◌, ◌<◌, ◌≡◌, refl, ◌∙◌, arith, [], ◌++◌, Bool, Bytes, length, ok, Option, none, some,
}
use shinzohub.Sourcehub.State.{Params}
use shinzohub.Wire.Writer.{Numbers}
use shinzohub.Wire.Writer.Fills.{EncodesNumbers, Fills, nothing-Fills, field, text, length-field}
use shinzohub.Wire.Writer.Writes.{
  Writes, put-Writes, then-Writes, text-Writes, field-Writes, marshal_of-Writes, size_of-Writes,
}
use shinzohub.Wire.Loop.{Message, Skip}
use shinzohub.Wire.Params.RoundTrip.{params_format, size_params-format, marshal_params-format}
use shinzohub.Wire.Genesis.{
  WireGenesis, NestedCalls, size_nested, put_nested, total_genesis, size_genesis, write_genesis,
  marshal_genesis,
}
use shinzohub.Wire.Genesis.Nested.{CallsParams}

unfoldable pub nested_format : Option (Message Params) → Bytes
nested_format none = []
nested_format (some p) = field 0x3a (params_format p)

-- The format of `GenesisState`.
unfoldable pub genesis_format : Message WireGenesis → Bytes
genesis_format x =
    text 0x0a x.body.controller_connection_id
    ++ (text 0x12 x.body.host_connection_id
        ++ (text 0x1a x.body.version
            ++ (text 0x22 x.body.encoding
                ++ (text 0x2a x.body.tx_type
                    ++ (text 0x32 x.body.policy_id
                        ++ (nested_format x.body.params ++ x.unknown_fields))))))

abbrev pub fresh_genesis : Message WireGenesis
fresh_genesis = record {
  body = record {
    controller_connection_id = [];
    host_connection_id = [];
    version = [];
    encoding = [];
    tx_type = [];
    policy_id = [];
    params = none;
  };
  unknown_fields = [];
}

module _ (n : Numbers) (law : EncodesNumbers n) (skip : Skip) (discard : Bool) (calls : NestedCalls)
    (called : CallsParams n skip discard calls) where
  nested-Writes :
      (o : Option (Message Params))
      → Writes (put_nested n calls o) (size_nested n calls o) (nested_format o)
  unfolding put_nested size_nested nested_format Writes Fills
  nested-Writes none h = (nothing-Fills, refl)
  nested-Writes (some p) h =
      let short : length (params_format p) < 2 ^ 63 =
        omega (arith, length-field 0x3a (params_format p)) in
      let size = called.sizes (some p) ∙ size_params-format n law p short in
      let encoded =
        called.marshals (some p)
        ∙ marshal_params-format n law _ [] p (called.sizes (some p)) short in
      rw (size, encoded) (field-Writes n law 0x3a (params_format p) h)

  genesis-Writes :
      (x : Message WireGenesis)
      → Writes (write_genesis n calls x) (total_genesis n calls x) (genesis_format x)
  unfolding write_genesis total_genesis genesis_format
  genesis-Writes x =
      then-Writes _ _ _ _ _ _
        (then-Writes _ _ _ _ _ _
          (then-Writes _ _ _ _ _ _
            (then-Writes _ _ _ _ _ _
              (then-Writes _ _ _ _ _ _
                (then-Writes _ _ _ _ _ _
                  (then-Writes _ _ _ _ _ _ (put-Writes x.unknown_fields)
                    (nested-Writes x.body.params))
                  (text-Writes n law 0x32 x.body.policy_id))
                (text-Writes n law 0x2a x.body.tx_type))
              (text-Writes n law 0x22 x.body.encoding))
            (text-Writes n law 0x1a x.body.version))
          (text-Writes n law 0x12 x.body.host_connection_id))
        (text-Writes n law 0x0a x.body.controller_connection_id)

  pub size_genesis-format :
      (x : Message WireGenesis)
      → length (genesis_format x) < 2 ^ 63
      → size_genesis n calls (some x) ≡ length (genesis_format x)
  unfolding size_genesis
  size_genesis-format x h = size_of-Writes _ (write_genesis n calls) _ x (genesis-Writes x) h

  pub marshal_genesis-format :
      (own_size : Option (Message WireGenesis) → ℕ) (out : Bytes) (x : Message WireGenesis)
      → own_size (some x) ≡ size_genesis n calls (some x)
      → length (genesis_format x) < 2 ^ 63
      → marshal_genesis n calls own_size out (some x) ≡ ok (out ++ genesis_format x)
  unfolding marshal_genesis size_genesis
  marshal_genesis-format own_size out x own h =
      marshal_of-Writes (total_genesis n calls) (write_genesis n calls) _ x own_size out own
        (genesis-Writes x) h
