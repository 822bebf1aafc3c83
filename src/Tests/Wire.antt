-- ===== src/Tests/Wire.antt =====
-- The theorems on the wire format, shinzonetwork/sourcehub/v1, with numbers that are written as the
-- format has them, and a `Skip` that takes one byte.
use shinzohub.Prelude.{
  same→ne, true, ◌≢◌, same, ℕ, ◌<◌, ok_injective, ◌-◌, ◌≡◌, refl, arith, [], ◌∷◌, ◌++◌, true, false,
  Bytes, length, ltb, if◌then◌else◌, Result, ok, err, some, codes,
}
use shinzohub.Sourcehub.Messages.{MsgRegisterShinzoObjects, MsgRequestStreamAccess}
use shinzohub.Wire.Reader.{
  text_case, read_bytes, read_slice, int_overflow, unexpected_eof, read_number, read_varint,
  split_tag, read_tag, number_case, select,
}
use shinzohub.Wire.Reader.Varint.{varint, groups}
use shinzohub.Wire.Writer.{Halt, panics, Buffer, buffer, Numbers, widen}
use shinzohub.Wire.Writer.Fills.{EncodesNumbers, field, text, texts, number}
use shinzohub.Wire.Loop.{Skip, Restores, known, dispatch, read_field, unmarshal_loop, unmarshal_of}
use shinzohub.Wire.Loop.Ends.{SkipsTag}
use shinzohub.Wire.RegisterObjects.{
  size_register_objects, marshal_register_objects, unmarshal_register_objects,
}
use shinzohub.Wire.RegisterObjects.RoundTrip.{
  register_objects_format, fresh_register_objects, register_objects-Restores,
}
use shinzohub.Wire.StreamAccess.{
  size_stream_access, marshal_stream_access, switch_stream_access, unmarshal_stream_access,
}
use shinzohub.Wire.Reflection.{
  FieldDescriptor, string_value, set_of, clear_of, find_field, set_string,
}
use shinzohub.Wire.StreamAccess.Reflect.{
  stream_access_fields, has_stream_access, clear_stream_access, get_stream_access,
  set_stream_access, new_field_stream_access,
}
use shinzohub.Wire.Reflection.Laws.{named}
use shinzohub.Wire.StreamAccess.Reflect.Laws.{set_stream_access-get_stream_access}
use shinzohub.Wire.StreamAccess.RoundTrip.{
  stream_access_format, fresh_stream_access, stream_access-Restores,
}

abbrev pub toy_encode : ℕ → Buffer → Result Halt Buffer
toy_encode v (buffer i bs) =
    if ltb i (length (varint v))
    then err panics
    else ok (buffer (i - length (varint v)) (varint v ++ bs))

abbrev pub toy_numbers : Numbers
toy_numbers = record { sov = λ v. length (varint v); encode_varint = toy_encode }

pub toy_numbers-EncodesNumbers : EncodesNumbers toy_numbers
toy_numbers-EncodesNumbers = record {
  counts = λ v h. refl;
  encodes = λ v i bs h k. ground (arith, k);
}

abbrev pub toy_skip : Skip
toy_skip [] = err (codes "EOF")
toy_skip (b ∷ bs) = ok 1

toy_skip_advances : (bs : Bytes) (n : ℕ) → toy_skip bs ≡ ok n → 0 < n
toy_skip_advances [] n p = absurd (cc)
toy_skip_advances (b ∷ bs) n p = omega (arith, ok_injective 1 n p)

pub toy_skip-SkipsTag : SkipsTag toy_skip
toy_skip-SkipsTag = record { advances = toy_skip_advances }

abbrev toy_access : MsgRequestStreamAccess
toy_access = record {
  signer = codes "shinzo1a";
  resource = 1;
  stream_id = codes "view";
  did = codes "did:key:z";
  expiration = 300;
}

stream_access-Restores_example :
    Restores
      (size_stream_access toy_numbers)
      (marshal_stream_access toy_numbers (size_stream_access toy_numbers))
      (unmarshal_stream_access toy_skip true)
      fresh_stream_access
      (known toy_access)
unfolding stream_access_format text number field varint groups widen
stream_access-Restores_example =
    stream_access-Restores toy_numbers toy_numbers-EncodesNumbers toy_skip true
      (size_stream_access toy_numbers) toy_access (omega arith, omega arith) refl (omega arith)

abbrev toy_objects : MsgRegisterShinzoObjects
toy_objects = record { signer = codes "shinzo1a"; resources = codes "a" ∷ [] ∷ codes "bc" ∷ [] }

register_objects-Restores_example :
    Restores
      (size_register_objects toy_numbers)
      (marshal_register_objects toy_numbers (size_register_objects toy_numbers))
      (unmarshal_register_objects toy_skip true)
      fresh_register_objects
      (known toy_objects)
unfolding register_objects_format text texts field varint groups
register_objects-Restores_example =
    register_objects-Restores toy_numbers toy_numbers-EncodesNumbers toy_skip true
      (size_register_objects toy_numbers) toy_objects refl (omega arith)

-- An expiration of eleven bytes, one that is cut off, and a resource of more than 32 bits, which
-- keeps the low ones.
odd_numbers :
    (unmarshal_stream_access toy_skip true
        (0x28 ∷ 128 ∷ 128 ∷ 128 ∷ 128 ∷ 128 ∷ 128 ∷ 128 ∷ 128 ∷ 128 ∷ 128 ∷ 0 ∷ [])
        (some fresh_stream_access)
      ≡ err int_overflow)
    × (unmarshal_stream_access toy_skip true (0x28 ∷ 128 ∷ []) (some fresh_stream_access)
        ≡ err unexpected_eof)
    × (unmarshal_stream_access toy_skip true
          (0x10 ∷ 129 ∷ 128 ∷ 128 ∷ 128 ∷ 16 ∷ [])
          (some fresh_stream_access)
        ≡ ok (some (known (record fresh_stream_access.body { resource = 1 }))))
unfolding unmarshal_stream_access unmarshal_of unmarshal_loop read_field read_tag read_varint
    read_number split_tag dispatch switch_stream_access number_case select
odd_numbers = (refl, refl, refl)

read_three :
    unmarshal_stream_access toy_skip false
      (0x28 ∷ 172 ∷ 2 ∷ 0x1a ∷ 1 ∷ 97 ∷ [])
      (some fresh_stream_access)
    ≡ ok
        (some (known (record fresh_stream_access.body { stream_id = codes "a"; expiration = 300 })))
unfolding unmarshal_stream_access unmarshal_of unmarshal_loop read_field read_tag read_varint
    read_number split_tag dispatch switch_stream_access number_case text_case read_bytes read_slice
    select
read_three = refl

abbrev did_field : FieldDescriptor
did_field = record {
  full_name = codes "shinzonetwork.sourcehub.v1.MsgRequestStreamAccess.did";
  is_extension = false;
}

abbrev signer_name : Bytes
signer_name = codes "shinzonetwork.sourcehub.v1.MsgRequestStreamAccess.signer"

did_set :
    set_stream_access did_field (string_value (codes "did:key:y")) toy_access
    ≡ ok (record toy_access { did = codes "did:key:y" })
unfolding set_stream_access stream_access_fields set_of find_field set_string same
did_set = refl

did_cleared : clear_stream_access did_field toy_access ≡ ok (record toy_access { did = [] })
unfolding clear_stream_access stream_access_fields clear_of find_field set_string same
did_cleared = refl

signer_field-ne : signer_name ≢ did_field.full_name
unfolding same
signer_field-ne = same→ne signer_name did_field.full_name refl

set_stream_access-get_stream_access_example :
    (get_stream_access did_field (record toy_access { did = codes "did:key:y" })
      ≡ ok (string_value (codes "did:key:y")))
    × (get_stream_access (named signer_name) (record toy_access { did = codes "did:key:y" })
        ≡ get_stream_access (named signer_name) toy_access)
    × (has_stream_access did_field (record toy_access { did = [] }) ≡ ok false)
    × (get_stream_access did_field (record toy_access { did = [] })
        ≡ new_field_stream_access did_field)
set_stream_access-get_stream_access_example =
    set_stream_access-get_stream_access did_field (named signer_name)
      (string_value (codes "did:key:y")) toy_access _ _ signer_field-ne did_set did_cleared
