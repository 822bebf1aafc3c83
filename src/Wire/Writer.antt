-- ===== src/Wire/Writer.antt =====
-- What the `size` and `marshal` functions of shinzonetwork/sourcehub/v1 do for each kind of field. A
-- buffer is made of the computed size and filled from its end: `i` is where the written part begins.
pub mod Fills
pub mod Writes
use shinzohub.Prelude.{
  ℕ, zero, suc, ◌+◌, ◌-◌, ◌%◌, ◌^◌, List, [], ◌∷◌, ◌++◌, Bool, true, false, Bytes, length, is_empty,
  ltb, leb, ◌==◌, if◌then◌else◌, Result, ok, err, and_then, Option, none, some,
}

-- A call that panics, or that returns an error.
pub data Halt : Type 0 where
  panics : Halt
  fails : Bytes → Halt

-- `i`, and the bytes from there on. Those before it are still zero.
pub data Buffer : Type 0 where
  buffer : ℕ → Bytes → Buffer

-- `runtime.Sov`, `runtime.EncodeVarint`.
pub record Numbers : Type 0 where
  pub sov : ℕ → ℕ
  pub encode_varint : ℕ → Buffer → Result Halt Buffer

infixl 5 ◌>=>◌
abbrev pub ◌>=>◌ :
    (Buffer → Result Halt Buffer) → (Buffer → Result Halt Buffer) → Buffer → Result Halt Buffer
◌>=>◌ f g w = and_then (f w) g

-- `make([]byte, size)`, of a size that may have overflowed.
unfoldable pub make_buffer : ℕ → Result Halt Buffer
make_buffer size = if ltb size (2 ^ 63) then ok (buffer size []) else err panics

zeros : ℕ → Bytes
zeros zero = []
zeros (suc n) = 0 ∷ zeros n

unfoldable pub flush : Buffer → Bytes
unfolding zeros
flush (buffer i bs) = zeros i ++ bs

-- `i -= len(s); copy(dAtA[i:], s)`
unfoldable pub put : Bytes → Buffer → Result Halt Buffer
put s (buffer i bs) = if ltb i (length s) then err panics else ok (buffer (i - length s) (s ++ bs))

-- `i--; dAtA[i] = tag`
unfoldable pub put_byte : ℕ → Buffer → Result Halt Buffer
put_byte tag = put (tag ∷ [])

module _ (n : Numbers) where
  -- A text or a message of `length s` bytes, behind its length and its tag.
  unfoldable pub put_field : ℕ → Bytes → Buffer → Result Halt Buffer
  put_field tag s = put s >=> n.encode_varint (length s % 2 ^ 64) >=> put_byte tag

  unfoldable pub size_field : ℕ → ℕ
  size_field l = 1 + l + n.sov (l % 2 ^ 64)

  -- `if len(s) > 0`
  unfoldable pub put_text : ℕ → Bytes → Buffer → Result Halt Buffer
  put_text tag [] w = ok w
  put_text tag (b ∷ s) w = put_field tag (b ∷ s) w

  unfoldable pub size_text : Bytes → ℕ
  size_text [] = 0
  size_text (b ∷ s) = size_field (length (b ∷ s))

  -- The loop from the last element to the first.
  unfoldable pub put_texts : ℕ → List Bytes → Buffer → Result Halt Buffer
  put_texts tag [] = ok
  put_texts tag (s ∷ ss) = put_texts tag ss >=> put_field tag s

  unfoldable pub size_texts : List Bytes → ℕ
  size_texts [] = 0
  size_texts (s ∷ ss) = size_field (length s) + size_texts ss

  -- `if v != 0`
  unfoldable pub put_number : ℕ → ℕ → Buffer → Result Halt Buffer
  put_number tag v w = if v == 0 then ok w else (n.encode_varint v >=> put_byte tag) w

  unfoldable pub size_number : ℕ → ℕ
  size_number v = if v == 0 then 0 else 1 + n.sov v

-- `uint64(r)` of an `int32` with the bit pattern `r`.
unfoldable pub widen : ℕ → ℕ
widen r = if leb (2 ^ 31) r then r + (2 ^ 64 - 2 ^ 32) else r

module _ {M : Type 0} where
  -- `x == nil`
  unfoldable pub size_of : (M → ℕ) → Option M → ℕ
  size_of total none = 0
  size_of total (some x) = total x % 2 ^ 64

  -- `append(input.Buf, dAtA...)`
  unfoldable pub marshal_of :
      (Option M → ℕ) → (M → Buffer → Result Halt Buffer) → Bytes → Option M → Result Halt Bytes
  marshal_of options_size write buf none = ok buf
  marshal_of options_size write buf (some x) =
      and_then (and_then (make_buffer (options_size (some x))) (write x)) (λ w. ok (buf ++ flush w))
