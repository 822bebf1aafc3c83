-- ===== src/Wire/Reader.antt =====
-- What the `unmarshal` functions of shinzonetwork/sourcehub/v1 do at a place in their input: the
-- loops that read a number, the tag of a field, a text and a field that the message does not know.
-- All messages carry the same code, with other names of fields in the errors.
pub mod Varint
pub mod Within
pub mod Reads
use Prim.Native.Nat.{bit_or}
use shinzohub.Prelude.{
  ℕ, zero, suc, ◌+◌, ◌*◌, ◌/◌, ◌%◌, ◌^◌, List, [], ◌∷◌, Bool, true, false, ◌||◌, Bytes, length, ltb,
  leb, ◌==◌, if◌then◌else◌, Result, ok, err, and_then, Option, none, some,
}

-- The errors, by what they say. `skip_failed` is an error of `runtime.Skip`; `out_of_fuel` is none of
-- Go's: it would stand for a loop that goes on.
pub data Fault : Type 0 where
  int_overflow unexpected_eof invalid_length end_group out_of_fuel : Fault
  illegal_tag wrong_wire_type : ℕ → ℕ → Fault
  skip_failed : Bytes → Fault

-- `iNdEx`, and the input from there on.
pub data Cursor : Type 0 where
  cursor : ℕ → Bytes → Cursor

abbrev pub unread : Cursor → Bytes
unread (cursor i bs) = bs

infixl 5 ◌>>=◌
abbrev pub ◌>>=◌ : {E A B : Type 0} → Result E A → (A → Result E B) → Result E B
◌>>=◌ = and_then

-- `for shift := uint(0); ; shift += 7`: a number of the type that has `m` values, of which `value` is
-- read. `b & 0x7F` is `b % 128`.
unfoldable pub read_number : ℕ → Bytes → ℕ → ℕ → ℕ → Result Fault (ℕ × Cursor)
read_number m [] i value shift = if leb 64 shift then err int_overflow else err unexpected_eof
read_number m (b ∷ bs) i value shift =
    let value' = bit_or value (b % 128 * 2 ^ shift % m) in
    let more = read_number m bs (i + 1) value' (shift + 7) in
    if leb 64 shift
    then err int_overflow
    else (if ltb b 128 then ok (value', cursor (i + 1) bs) else more)

unfoldable pub read_varint : ℕ → Cursor → Result Fault (ℕ × Cursor)
read_varint m (cursor i bs) = read_number m bs i 0 0

-- `int(n) < 0`
abbrev pub is_negative : ℕ → Bool
is_negative n = leb (2 ^ 63) n

-- What `wire` says: the number and the wire type of a field. `int32(wire >> 3) <= 0` is written out.
unfoldable pub split_tag : ℕ → Cursor → Result Fault (ℕ × ℕ × Cursor)
split_tag wire c =
    let number = wire / 8 % 2 ^ 32 in
    if wire % 8 == 4
    then err end_group
    else (if (number == 0) || leb (2 ^ 31) number
        then err (illegal_tag number wire)
        else ok (number, wire % 8, c))

unfoldable pub read_tag : Cursor → Result Fault (ℕ × ℕ × Cursor)
read_tag c = read_varint (2 ^ 64) c >>= λ p. split_tag p.0 p.1

abbrev pub take : ℕ → Bytes → Bytes
take n [] = []
take zero (b ∷ bs) = []
take (suc n) (b ∷ bs) = b ∷ take n bs

abbrev pub drop : ℕ → Bytes → Bytes
drop n [] = []
drop zero (b ∷ bs) = b ∷ bs
drop (suc n) (b ∷ bs) = drop n bs

-- The next `n` bytes. As an `int`, `n` is not negative; the sum with `iNdEx` may overflow.
unfoldable pub read_slice : ℕ → Cursor → Result Fault (Bytes × Cursor)
read_slice n (cursor i bs) =
    if is_negative n || is_negative (i + n)
    then err invalid_length
    else (if ltb (length bs) n
        then err unexpected_eof
        else ok (take n bs, cursor (i + n) (drop n bs)))

-- `stringLen` and the bytes that it counts.
unfoldable pub read_bytes : Cursor → Result Fault (Bytes × Cursor)
read_bytes c = read_varint (2 ^ 64) c >>= λ p. read_slice p.0 p.1

-- The cases of `switch fieldNum`, by the type of the field: a text, or a number of a type that has
-- `m` values. `put` is the assignment to the field.
module _ {M : Type 0} (number wire_type : ℕ) where
  unfoldable pub text_case : Cursor → (Bytes → M) → Result Fault (M × Cursor)
  text_case c put =
      if wire_type == 2
      then (read_bytes c >>= λ p. ok (put p.0, p.1))
      else err (wrong_wire_type number wire_type)

  unfoldable pub number_case : ℕ → Cursor → (ℕ → M) → Result Fault (M × Cursor)
  number_case m c put =
      if wire_type == 0
      then (read_varint m c >>= λ p. ok (put p.0, p.1))
      else err (wrong_wire_type number wire_type)

-- `switch fieldNum`; `none` where no case has the number.
unfoldable pub select : {A : Type 0} → ℕ → List (ℕ × A) → Option A
select number [] = none
select number ((k, a) ∷ cases) = if number == k then some a else select number cases
