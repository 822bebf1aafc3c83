-- ===== src/Wire/RegisterPolicy/RoundTrip.antt =====
-- `MsgRegisterShinzoPolicy` is read back from what was written of it.
use shinzohub.Prelude.{
  ℕ, ◌^◌, ◌<◌, ◌≡◌, ◌≢◌, refl, arith, [], ◌++◌, Bool, Bytes, length, ok, err, Option, some,
}
use shinzohub.Sourcehub.Messages.{MsgRegisterShinzoPolicy}
use shinzohub.Wire.Writer.{Numbers}
use shinzohub.Wire.Writer.Fills.{EncodesNumbers, text}
use shinzohub.Wire.Writer.Writes.{
  Writes, put-Writes, then-Writes, text-Writes, marshal_of-Writes, size_of-Writes,
}
use shinzohub.Wire.Reader.{out_of_fuel, select}
use shinzohub.Wire.Reader.Within.{text_case-Within, select-Moves}
use shinzohub.Wire.Loop.{Message, Skip, known, Restores}
use shinzohub.Wire.Loop.Ends.{Progresses, SkipsTag, unmarshal_of-ends}
use shinzohub.Wire.Loop.Parses.{nothing-Parses, text-Parses, unmarshal_of-Parses}
use shinzohub.Wire.RegisterPolicy.{
  size_register_policy, write_register_policy, total_register_policy, marshal_register_policy,
  switch_register_policy, unmarshal_register_policy,
}

-- The format of `MsgRegisterShinzoPolicy`.
unfoldable pub register_policy_format : Message MsgRegisterShinzoPolicy → Bytes
register_policy_format x = text 0x0a x.body.signer ++ (x.unknown_fields)

abbrev pub fresh_register_policy : Message MsgRegisterShinzoPolicy
fresh_register_policy = record { body = record { signer = [] }; unknown_fields = [] }

switch_register_policy-Progresses : Progresses switch_register_policy
unfolding switch_register_policy
switch_register_policy-Progresses number wire_type x c =
    select-Moves _ number _ (text_case-Within number wire_type c _, tt)

pub unmarshal_register_policy-ends :
    (skip : Skip) (discard : Bool) (input : Bytes) (o : Option (Message MsgRegisterShinzoPolicy))
    → SkipsTag skip
    → unmarshal_register_policy skip discard input o ≢ err out_of_fuel
unfolding unmarshal_register_policy
unmarshal_register_policy-ends skip discard input o law =
    unmarshal_of-ends skip law discard switch_register_policy switch_register_policy-Progresses
      input o

module _ (n : Numbers) (law : EncodesNumbers n) where
  register_policy-Writes :
      (x : Message MsgRegisterShinzoPolicy)
      → Writes (write_register_policy n x) (total_register_policy n x) (register_policy_format x)
  unfolding write_register_policy total_register_policy register_policy_format
  register_policy-Writes x =
      then-Writes _ _ _ _ _ _ (put-Writes x.unknown_fields) (text-Writes n law 0x0a x.body.signer)

  -- The size is that of the format.
  pub size_register_policy-format :
      (x : Message MsgRegisterShinzoPolicy)
      → length (register_policy_format x) < 2 ^ 63
      → size_register_policy n (some x) ≡ length (register_policy_format x)
  unfolding size_register_policy
  size_register_policy-format x h =
      size_of-Writes _ (write_register_policy n) _ x (register_policy-Writes x) h

  -- `marshal` fills its buffer with the format.
  pub marshal_register_policy-format :
      (options_size : Option (Message MsgRegisterShinzoPolicy) → ℕ) (out : Bytes)
      (x : Message MsgRegisterShinzoPolicy)
      → options_size (some x) ≡ size_register_policy n (some x)
      → length (register_policy_format x) < 2 ^ 63
      → marshal_register_policy n options_size out (some x) ≡ ok (out ++ register_policy_format x)
  unfolding marshal_register_policy size_register_policy
  marshal_register_policy-format options_size out x own h =
      marshal_of-Writes (total_register_policy n) (write_register_policy n) _ x options_size out own
        (register_policy-Writes x) h

pub unmarshal_register_policy-format :
    (skip : Skip) (discard : Bool) (m : MsgRegisterShinzoPolicy)
    → let x : Message MsgRegisterShinzoPolicy = record { body = m; unknown_fields = [] } in
      length (register_policy_format x) < 2 ^ 63
      → unmarshal_register_policy skip discard
          (register_policy_format x)
          (some fresh_register_policy)
        ≡ ok (some x)
unfolding unmarshal_register_policy register_policy_format switch_register_policy select
unmarshal_register_policy-format skip discard m h =
    unmarshal_of-Parses skip discard switch_register_policy [] fresh_register_policy.body m _ h (
      text-Parses skip discard switch_register_policy [] 1 m.signer _ (record { signer = [] }) m
        (λ s. record { signer = s }) (omega arith) (omega arith) (λ c. refl) refl
        (nothing-Parses skip discard switch_register_policy [] m))

-- With the library's numbers as documented, and `options.Size` that calls the message's own `size`,
-- a `MsgRegisterShinzoPolicy` without unknown fields,
-- that takes less than 2^63 bytes, is written in as many bytes as `size` says, and `unmarshal`
-- makes the same message of them, whatever `Skip` does.
pub register_policy-Restores :
    (n : Numbers) (law : EncodesNumbers n) (skip : Skip) (discard : Bool)
    (options_size : Option (Message MsgRegisterShinzoPolicy) → ℕ) (m : MsgRegisterShinzoPolicy)
    → options_size (some (known m)) ≡ size_register_policy n (some (known m))
    → length (register_policy_format (known m)) < 2 ^ 63
    → Restores
        (size_register_policy n)
        (marshal_register_policy n options_size)
        (unmarshal_register_policy skip discard)
        fresh_register_policy
        (known m)
register_policy-Restores n law skip discard options_size m own h = (
  register_policy_format (known m),
  size_register_policy-format n law (known m) h,
  marshal_register_policy-format n law options_size [] (known m) own h,
  unmarshal_register_policy-format skip discard m h,
)
