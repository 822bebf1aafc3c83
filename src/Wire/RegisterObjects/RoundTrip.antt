-- ===== src/Wire/RegisterObjects/RoundTrip.antt =====
-- `MsgRegisterShinzoObjects` is read back from what was written of it.
use shinzohub.Prelude.{
  ℕ, ◌^◌, ◌<◌, ◌≡◌, ◌≢◌, refl, arith, [], ◌++◌, Bool, Bytes, length, ok, err, Option, some,
}
use shinzohub.Sourcehub.Messages.{MsgRegisterShinzoObjects}
use shinzohub.Wire.Writer.{Numbers}
use shinzohub.Wire.Writer.Fills.{EncodesNumbers, text, texts}
use shinzohub.Wire.Writer.Writes.{
  Writes, put-Writes, then-Writes, text-Writes, texts-Writes, marshal_of-Writes, size_of-Writes,
}
use shinzohub.Wire.Reader.{out_of_fuel, select}
use shinzohub.Wire.Reader.Within.{text_case-Within, select-Moves}
use shinzohub.Wire.Loop.{Message, Skip, known, Restores}
use shinzohub.Wire.Loop.Ends.{Progresses, SkipsTag, unmarshal_of-ends}
use shinzohub.Wire.Loop.Parses.{nothing-Parses, text-Parses, texts-Parses, unmarshal_of-Parses}
use shinzohub.Wire.RegisterObjects.{
  size_register_objects, write_register_objects, total_register_objects, marshal_register_objects,
  switch_register_objects, unmarshal_register_objects,
}

-- The format of `MsgRegisterShinzoObjects`.
unfoldable pub register_objects_format : Message MsgRegisterShinzoObjects → Bytes
register_objects_format x =
    text 0x0a x.body.signer ++ (texts 0x12 x.body.resources ++ (x.unknown_fields))

abbrev pub fresh_register_objects : Message MsgRegisterShinzoObjects
fresh_register_objects = record {
  body = record { signer = []; resources = [] };
  unknown_fields = [];
}

switch_register_objects-Progresses : Progresses switch_register_objects
unfolding switch_register_objects
switch_register_objects-Progresses number wire_type x c =
    select-Moves _ number _
      (text_case-Within number wire_type c _, (text_case-Within number wire_type c _, tt))

pub unmarshal_register_objects-ends :
    (skip : Skip) (discard : Bool) (input : Bytes) (o : Option (Message MsgRegisterShinzoObjects))
    → SkipsTag skip
    → unmarshal_register_objects skip discard input o ≢ err out_of_fuel
unfolding unmarshal_register_objects
unmarshal_register_objects-ends skip discard input o law =
    unmarshal_of-ends skip law discard switch_register_objects switch_register_objects-Progresses
      input o

module _ (n : Numbers) (law : EncodesNumbers n) where
  register_objects-Writes :
      (x : Message MsgRegisterShinzoObjects)
      → Writes (write_register_objects n x) (total_register_objects n x) (register_objects_format x)
  unfolding write_register_objects total_register_objects register_objects_format
  register_objects-Writes x =
      then-Writes _ _ _ _ _ _
        (then-Writes _ _ _ _ _ _ (put-Writes x.unknown_fields)
          (texts-Writes n law 0x12 x.body.resources))
        (text-Writes n law 0x0a x.body.signer)

  -- The size is that of the format.
  pub size_register_objects-format :
      (x : Message MsgRegisterShinzoObjects)
      → length (register_objects_format x) < 2 ^ 63
      → size_register_objects n (some x) ≡ length (register_objects_format x)
  unfolding size_register_objects
  size_register_objects-format x h =
      size_of-Writes _ (write_register_objects n) _ x (register_objects-Writes x) h

  -- `marshal` fills its buffer with the format.
  pub marshal_register_objects-format :
      (options_size : Option (Message MsgRegisterShinzoObjects) → ℕ) (out : Bytes)
      (x : Message MsgRegisterShinzoObjects)
      → options_size (some x) ≡ size_register_objects n (some x)
      → length (register_objects_format x) < 2 ^ 63
      → marshal_register_objects n options_size out (some x) ≡ ok (out ++ register_objects_format x)
  unfolding marshal_register_objects size_register_objects
  marshal_register_objects-format options_size out x own h =
      marshal_of-Writes (total_register_objects n) (write_register_objects n) _ x options_size out
        own (register_objects-Writes x) h

pub unmarshal_register_objects-format :
    (skip : Skip) (discard : Bool) (m : MsgRegisterShinzoObjects)
    → let x : Message MsgRegisterShinzoObjects = record { body = m; unknown_fields = [] } in
      length (register_objects_format x) < 2 ^ 63
      → unmarshal_register_objects skip discard
          (register_objects_format x)
          (some fresh_register_objects)
        ≡ ok (some x)
unfolding unmarshal_register_objects register_objects_format switch_register_objects select
unmarshal_register_objects-format skip discard m h =
    let x₀ : MsgRegisterShinzoObjects = fresh_register_objects.body in
    let x₁ : MsgRegisterShinzoObjects = record x₀ { signer = m.signer } in
    unmarshal_of-Parses skip discard switch_register_objects [] x₀ m _ h (
      text-Parses skip discard switch_register_objects [] 1 m.signer _ x₀ m
        (λ s. record x₀ { signer = s }) (omega arith) (omega arith) (λ c. refl) refl
        (texts-Parses skip discard switch_register_objects [] 2 m.resources [] _ m
          (λ rs. record x₁ { resources = rs }) (omega arith) (omega arith) (λ rs c. refl)
          (nothing-Parses skip discard switch_register_objects [] m)))

-- With the library's numbers as documented, and `options.Size` that calls the message's own `size`,
-- a `MsgRegisterShinzoObjects` without unknown fields,
-- that takes less than 2^63 bytes, is written in as many bytes as `size` says, and `unmarshal`
-- makes the same message of them, whatever `Skip` does.
pub register_objects-Restores :
    (n : Numbers) (law : EncodesNumbers n) (skip : Skip) (discard : Bool)
    (options_size : Option (Message MsgRegisterShinzoObjects) → ℕ) (m : MsgRegisterShinzoObjects)
    → options_size (some (known m)) ≡ size_register_objects n (some (known m))
    → length (register_objects_format (known m)) < 2 ^ 63
    → Restores
        (size_register_objects n)
        (marshal_register_objects n options_size)
        (unmarshal_register_objects skip discard)
        fresh_register_objects
        (known m)
register_objects-Restores n law skip discard options_size m own h = (
  register_objects_format (known m),
  size_register_objects-format n law (known m) h,
  marshal_register_objects-format n law options_size [] (known m) own h,
  unmarshal_register_objects-format skip discard m h,
)
