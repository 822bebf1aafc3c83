-- ===== src/Wire/StreamAccess/RoundTrip.antt =====
-- `MsgRequestStreamAccess` is read back from what was written of it.
use shinzohub.Prelude.{
  ℕ, ◌^◌, ◌<◌, ◌≡◌, ◌≢◌, refl, arith, [], ◌++◌, Bool, Bytes, length, ok, err, Option, some,
}
use shinzohub.Sourcehub.Messages.{MsgRequestStreamAccess}
use shinzohub.Wire.Writer.{Numbers, widen}
use shinzohub.Wire.Writer.Fills.{EncodesNumbers, text, number}
use shinzohub.Wire.Writer.Writes.{
  Writes, put-Writes, then-Writes, text-Writes, number-Writes, marshal_of-Writes, size_of-Writes,
  widen_small, widen_self,
}
use shinzohub.Wire.Reader.{out_of_fuel, select}
use shinzohub.Wire.Reader.Within.{text_case-Within, number_case-Within, select-Moves}
use shinzohub.Wire.Loop.{Message, Skip, known, Restores}
use shinzohub.Wire.Loop.Ends.{Progresses, SkipsTag, unmarshal_of-ends}
use shinzohub.Wire.Loop.Parses.{nothing-Parses, text-Parses, number-Parses, unmarshal_of-Parses}
use shinzohub.Wire.StreamAccess.{
  size_stream_access, write_stream_access, total_stream_access, marshal_stream_access,
  switch_stream_access, unmarshal_stream_access,
}

-- The format of `MsgRequestStreamAccess`.
unfoldable pub stream_access_format : Message MsgRequestStreamAccess → Bytes
stream_access_format x =
    text 0x0a x.body.signer
    ++ (number 0x10 (widen x.body.resource)
        ++ (text 0x1a x.body.stream_id
            ++ (text 0x22 x.body.did ++ (number 0x28 x.body.expiration ++ (x.unknown_fields)))))

abbrev pub fresh_stream_access : Message MsgRequestStreamAccess
fresh_stream_access = record {
  body = record { signer = []; resource = 0; stream_id = []; did = []; expiration = 0 };
  unknown_fields = [];
}

-- The numbers are those of their types, and the enumeration's is not negative.
abbrev pub Fits : MsgRequestStreamAccess → Type 0
Fits m = (m.resource < 2 ^ 31) × (m.expiration < 2 ^ 64)

switch_stream_access-Progresses : Progresses switch_stream_access
unfolding switch_stream_access
switch_stream_access-Progresses number wire_type x c = select-Moves _ number _ (
  text_case-Within number wire_type c _,
  (
    number_case-Within number wire_type c (2 ^ 32) _,
    (
      text_case-Within number wire_type c _,
      (
        text_case-Within number wire_type c _,
        (number_case-Within number wire_type c (2 ^ 64) _, tt),
      ),
    ),
  ),
)

pub unmarshal_stream_access-ends :
    (skip : Skip) (discard : Bool) (input : Bytes) (o : Option (Message MsgRequestStreamAccess))
    → SkipsTag skip
    → unmarshal_stream_access skip discard input o ≢ err out_of_fuel
unfolding unmarshal_stream_access
unmarshal_stream_access-ends skip discard input o law =
    unmarshal_of-ends skip law discard switch_stream_access switch_stream_access-Progresses input o

module _ (n : Numbers) (law : EncodesNumbers n) where
  stream_access-Writes :
      (x : Message MsgRequestStreamAccess)
      → Fits x.body
      → Writes (write_stream_access n x) (total_stream_access n x) (stream_access_format x)
  unfolding write_stream_access total_stream_access stream_access_format
  stream_access-Writes x fits =
      then-Writes _ _ _ _ _ _
        (then-Writes _ _ _ _ _ _
          (then-Writes _ _ _ _ _ _
            (then-Writes _ _ _ _ _ _
              (then-Writes _ _ _ _ _ _ (put-Writes x.unknown_fields)
                (number-Writes n law 0x28 x.body.expiration fits.1))
              (text-Writes n law 0x22 x.body.did))
            (text-Writes n law 0x1a x.body.stream_id))
          (number-Writes n law 0x10 (widen x.body.resource) (widen_small x.body.resource fits.0)))
        (text-Writes n law 0x0a x.body.signer)

  -- The size is that of the format.
  pub size_stream_access-format :
      (x : Message MsgRequestStreamAccess)
      → Fits x.body
      → length (stream_access_format x) < 2 ^ 63
      → size_stream_access n (some x) ≡ length (stream_access_format x)
  unfolding size_stream_access
  size_stream_access-format x fits h =
      size_of-Writes _ (write_stream_access n) _ x (stream_access-Writes x fits) h

  -- `marshal` fills its buffer with the format.
  pub marshal_stream_access-format :
      (options_size : Option (Message MsgRequestStreamAccess) → ℕ) (out : Bytes)
      (x : Message MsgRequestStreamAccess)
      → Fits x.body
      → options_size (some x) ≡ size_stream_access n (some x)
      → length (stream_access_format x) < 2 ^ 63
      → marshal_stream_access n options_size out (some x) ≡ ok (out ++ stream_access_format x)
  unfolding marshal_stream_access size_stream_access
  marshal_stream_access-format options_size out x fits own h =
      marshal_of-Writes (total_stream_access n) (write_stream_access n) _ x options_size out own
        (stream_access-Writes x fits) h

pub unmarshal_stream_access-format :
    (skip : Skip) (discard : Bool) (m : MsgRequestStreamAccess)
    → Fits m
    → let x : Message MsgRequestStreamAccess = record { body = m; unknown_fields = [] } in
      length (stream_access_format x) < 2 ^ 63
      → unmarshal_stream_access skip discard (stream_access_format x) (some fresh_stream_access)
        ≡ ok (some x)
unfolding unmarshal_stream_access stream_access_format switch_stream_access select
unmarshal_stream_access-format skip discard m fits h =
    let x₀ : MsgRequestStreamAccess = fresh_stream_access.body in
    let x₁ : MsgRequestStreamAccess = record x₀ { signer = m.signer } in
    let x₂ : MsgRequestStreamAccess = record x₁ { resource = m.resource } in
    let x₃ : MsgRequestStreamAccess = record x₂ { stream_id = m.stream_id } in
    let x₄ : MsgRequestStreamAccess = record x₃ { did = m.did } in
    unmarshal_of-Parses skip discard switch_stream_access [] x₀ m _ h (
      rw (widen_self m.resource fits.0) (
        text-Parses skip discard switch_stream_access [] 1 m.signer _ x₀ m
          (λ s. record x₀ { signer = s }) (omega arith) (omega arith) (λ c. refl) refl
          (number-Parses skip discard switch_stream_access [] 2 (2 ^ 32) m.resource _ x₁ m
            (λ v. record x₁ { resource = v }) (omega arith) (omega arith) (omega arith)
            (omega arith) (λ c. refl) refl
            (text-Parses skip discard switch_stream_access [] 3 m.stream_id _ x₂ m
              (λ s. record x₂ { stream_id = s }) (omega arith) (omega arith) (λ c. refl) refl
              (text-Parses skip discard switch_stream_access [] 4 m.did _ x₃ m
                (λ s. record x₃ { did = s }) (omega arith) (omega arith) (λ c. refl) refl
                (number-Parses skip discard switch_stream_access [] 5 (2 ^ 64) m.expiration _ x₄ m
                  (λ v. record x₄ { expiration = v }) (omega arith) (omega arith) fits.1 fits.1
                  (λ c. refl) refl (nothing-Parses skip discard switch_stream_access [] m)))))))

-- With the library's numbers as documented, and `options.Size` that calls the message's own `size`,
-- a `MsgRequestStreamAccess` without unknown fields, with a resource that is not negative and a 64-bit expiration,
-- that takes less than 2^63 bytes, is written in as many bytes as `size` says, and `unmarshal`
-- makes the same message of them, whatever `Skip` does.
pub stream_access-Restores :
    (n : Numbers) (law : EncodesNumbers n) (skip : Skip) (discard : Bool)
    (options_size : Option (Message MsgRequestStreamAccess) → ℕ) (m : MsgRequestStreamAccess)
    → Fits m
    → options_size (some (known m)) ≡ size_stream_access n (some (known m))
    → length (stream_access_format (known m)) < 2 ^ 63
    → Restores
        (size_stream_access n)
        (marshal_stream_access n options_size)
        (unmarshal_stream_access skip discard)
        fresh_stream_access
        (known m)
stream_access-Restores n law skip discard options_size m fits own h = (
  stream_access_format (known m),
  size_stream_access-format n law (known m) fits h,
  marshal_stream_access-format n law options_size [] (known m) fits own h,
  unmarshal_stream_access-format skip discard m fits h,
)
