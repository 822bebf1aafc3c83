-- ===== src/Wire/Reader/Reads.antt =====
-- The readers on what the writers write.
use shinzohub.Prelude.{
  ℕ, ◌+◌, ◌*◌, ◌/◌, ◌%◌, ◌^◌, ◌<◌, ◌≡◌, ◌≢◌, refl, arith, [], ◌∷◌, ◌++◌, false, ◌||◌, ◌==◌, Bytes,
  length, length-append, ltb, leb, ok,
}
use shinzohub.Wire.Reader.{
  cursor, read_varint, split_tag, read_tag, take, drop, read_slice, read_bytes, is_negative,
}
use shinzohub.Wire.Reader.Varint.{varint, read_varint-varint, varint_one}

take_append : (s more : Bytes) → take (length s) (s ++ more) ≡ s
take_append [] [] = refl
take_append [] (b ∷ more) = refl
take_append (b ∷ s) more = cc (take_append s more)

drop_append : (s more : Bytes) → drop (length s) (s ++ more) ≡ more
drop_append [] [] = refl
drop_append [] (b ∷ more) = refl
drop_append (b ∷ s) more = drop_append s more

-- A tag of one byte.
pub read_tag_one :
    (number wire_type i : ℕ) (more : Bytes)
    → 0 < number
    → number < 16
    → wire_type < 8
    → wire_type ≢ 4
    → read_tag (cursor i ((8 * number + wire_type) ∷ more))
      ≡ ok (number, wire_type, cursor (i + 1) more)
unfolding read_tag split_tag
read_tag_one number wire_type i more h k hw ne =
    let tag = 8 * number + wire_type in
    let read : read_varint (2 ^ 64) (cursor i (tag ∷ more)) ≡ ok (tag, cursor (i + 1) more) =
      rw (varint_one tag (omega arith)) at
        (read_varint-varint (2 ^ 64) tag i more (omega arith) (omega arith)) in
    let low : tag % 8 ≡ wire_type = omega arith in
    let high : tag / 8 % 2 ^ 32 ≡ number = omega arith in
    let no_group : (wire_type == 4) ≡ false = ground (arith, ne) in
    let legal : ((number == 0) || leb (2 ^ 31) number) ≡ false = ground arith in
    rw (read, low, high, no_group, legal) refl

pub read_slice_all :
    (s more : Bytes) (i : ℕ)
    → i + length s < 2 ^ 63
    → read_slice (length s) (cursor i (s ++ more)) ≡ ok (s, cursor (i + length s) more)
unfolding read_slice
read_slice_all s more i h =
    let total = length-append s more in
    let fits : (is_negative (length s) || is_negative (i + length s)) ≡ false = ground (arith, h) in
    let enough : ltb (length (s ++ more)) (length s) ≡ false = ground (arith, total) in
    rw (fits, enough, take_append, drop_append) refl

-- The bytes behind their length.
pub read_bytes_all :
    (s more : Bytes) (i : ℕ)
    → i + length (varint (length s)) + length s < 2 ^ 63
    → read_bytes (cursor i (varint (length s) ++ (s ++ more)))
      ≡ ok (s, cursor (i + length (varint (length s)) + length s) more)
unfolding read_bytes
read_bytes_all s more i h =
    rw (read_varint-varint (2 ^ 64) (length s) i (s ++ more) (omega arith) (omega arith))
      (read_slice_all s more _ h)
