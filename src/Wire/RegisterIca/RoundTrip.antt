-- ===== src/Wire/RegisterIca/RoundTrip.antt =====
-- `MsgRegisterSourcehubICA` is read back from what was written of it.
use shinzohub.Prelude.{
  ℕ, ◌^◌, ◌<◌, ◌≡◌, ◌≢◌, refl, arith, [], ◌++◌, Bool, Bytes, length, ok, err, Option, some,
}
use shinzohub.Sourcehub.Messages.{MsgRegisterSourcehubIca}
use shinzohub.Wire.Writer.{Numbers}
use shinzohub.Wire.Writer.Fills.{EncodesNumbers, text}
use shinzohub.Wire.Writer.Writes.{
  Writes, put-Writes, then-Writes, text-Writes, marshal_of-Writes, size_of-Writes,
}
use shinzohub.Wire.Reader.{out_of_fuel, select}
use shinzohub.Wire.Reader.Within.{text_case-Within, select-Moves}
use shinzohub.Wire.Loop.{Message, Skip, known, Restores}
use shinzohub.Wire.Loop.Ends.{Progresses, SkipsTag, unmarshal_of-ends}
use shinzohub.Wire.Loop.Parses.{nothing-Parses, text-Parses, unmarshal_of-Parses}
use shinzohub.Wire.RegisterIca.{
  size_register_ica, write_register_ica, total_register_ica, marshal_register_ica,
  switch_register_ica, unmarshal_register_ica,
}

-- The format of `MsgRegisterSourcehubICA`.
unfoldable pub register_ica_format : Message MsgRegisterSourcehubIca → Bytes
register_ica_format x =
    text 0x0a x.body.signer
    ++ (text 0x12 x.body.controller_connection_id
        ++ (text 0x1a x.body.host_connection_id ++ (x.unknown_fields)))

abbrev pub fresh_register_ica : Message MsgRegisterSourcehubIca
fresh_register_ica = record {
  body = record { signer = []; controller_connection_id = []; host_connection_id = [] };
  unknown_fields = [];
}

switch_register_ica-Progresses : Progresses switch_register_ica
unfolding switch_register_ica
switch_register_ica-Progresses number wire_type x c = select-Moves _ number _ (
  text_case-Within number wire_type c _,
  (text_case-Within number wire_type c _, (text_case-Within number wire_type c _, tt)),
)

pub unmarshal_register_ica-ends :
    (skip : Skip) (discard : Bool) (input : Bytes) (o : Option (Message MsgRegisterSourcehubIca))
    → SkipsTag skip
    → unmarshal_register_ica skip discard input o ≢ err out_of_fuel
unfolding unmarshal_register_ica
unmarshal_register_ica-ends skip discard input o law =
    unmarshal_of-ends skip law discard switch_register_ica switch_register_ica-Progresses input o

module _ (n : Numbers) (law : EncodesNumbers n) where
  register_ica-Writes :
      (x : Message MsgRegisterSourcehubIca)
      → Writes (write_register_ica n x) (total_register_ica n x) (register_ica_format x)
  unfolding write_register_ica total_register_ica register_ica_format
  register_ica-Writes x =
      then-Writes _ _ _ _ _ _
        (then-Writes _ _ _ _ _ _
          (then-Writes _ _ _ _ _ _ (put-Writes x.unknown_fields)
            (text-Writes n law 0x1a x.body.host_connection_id))
          (text-Writes n law 0x12 x.body.controller_connection_id))
        (text-Writes n law 0x0a x.body.signer)

  -- The size is that of the format.
  pub size_register_ica-format :
      (x : Message MsgRegisterSourcehubIca)
      → length (register_ica_format x) < 2 ^ 63
      → size_register_ica n (some x) ≡ length (register_ica_format x)
  unfolding size_register_ica
  size_register_ica-format x h =
      size_of-Writes _ (write_register_ica n) _ x (register_ica-Writes x) h

  -- `marshal` fills its buffer with the format.
  pub marshal_register_ica-format :
      (options_size : Option (Message MsgRegisterSourcehubIca) → ℕ) (out : Bytes)
      (x : Message MsgRegisterSourcehubIca)
      → options_size (some x) ≡ size_register_ica n (some x)
      → length (register_ica_format x) < 2 ^ 63
      → marshal_register_ica n options_size out (some x) ≡ ok (out ++ register_ica_format x)
  unfolding marshal_register_ica size_register_ica
  marshal_register_ica-format options_size out x own h =
      marshal_of-Writes (total_register_ica n) (write_register_ica n) _ x options_size out own
        (register_ica-Writes x) h

pub unmarshal_register_ica-format :
    (skip : Skip) (discard : Bool) (m : MsgRegisterSourcehubIca)
    → let x : Message MsgRegisterSourcehubIca = record { body = m; unknown_fields = [] } in
      length (register_ica_format x) < 2 ^ 63
      → unmarshal_register_ica skip discard (register_ica_format x) (some fresh_register_ica)
        ≡ ok (some x)
unfolding unmarshal_register_ica register_ica_format switch_register_ica select
unmarshal_register_ica-format skip discard m h =
    let x₀ : MsgRegisterSourcehubIca = fresh_register_ica.body in
    let x₁ : MsgRegisterSourcehubIca = record x₀ { signer = m.signer } in
    let x₂ : MsgRegisterSourcehubIca = record x₁ {
      controller_connection_id = m.controller_connection_id;
    } in
    unmarshal_of-Parses skip discard switch_register_ica [] x₀ m _ h (
      text-Parses skip discard switch_register_ica [] 1 m.signer _ x₀ m
        (λ s. record x₀ { signer = s }) (omega arith) (omega arith) (λ c. refl) refl
        (text-Parses skip discard switch_register_ica [] 2 m.controller_connection_id _ x₁ m
          (λ s. record x₁ { controller_connection_id = s }) (omega arith) (omega arith) (λ c. refl)
          refl
          (text-Parses skip discard switch_register_ica [] 3 m.host_connection_id _ x₂ m
            (λ s. record x₂ { host_connection_id = s }) (omega arith) (omega arith) (λ c. refl) refl
            (nothing-Parses skip discard switch_register_ica [] m))))

-- With the library's numbers as documented, and `options.Size` that calls the message's own `size`,
-- a `MsgRegisterSourcehubICA` without unknown fields,
-- that takes less than 2^63 bytes, is written in as many bytes as `size` says, and `unmarshal`
-- makes the same message of them, whatever `Skip` does.
pub register_ica-Restores :
    (n : Numbers) (law : EncodesNumbers n) (skip : Skip) (discard : Bool)
    (options_size : Option (Message MsgRegisterSourcehubIca) → ℕ) (m : MsgRegisterSourcehubIca)
    → options_size (some (known m)) ≡ size_register_ica n (some (known m))
    → length (register_ica_format (known m)) < 2 ^ 63
    → Restores
        (size_register_ica n)
        (marshal_register_ica n options_size)
        (unmarshal_register_ica skip discard)
        fresh_register_ica
        (known m)
register_ica-Restores n law skip discard options_size m own h = (
  register_ica_format (known m),
  size_register_ica-format n law (known m) h,
  marshal_register_ica-format n law options_size [] (known m) own h,
  unmarshal_register_ica-format skip discard m h,
)
