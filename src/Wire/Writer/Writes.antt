-- ===== src/Wire/Writer/Writes.antt =====
-- A writer beside its part of the size.
use shinzohub.Prelude.{
  ℕ, ◌+◌, ◌-◌, ◌^◌, ◌<◌, ◌≡◌, refl, ◌∙◌, arith, List, ◌++◌, Bytes, true, length, length-append,
  append-nil, ltb, Result, ok, Option, some, [],
}
use shinzohub.Wire.Writer.{
  Halt, Buffer, Numbers, ◌>=>◌, make_buffer, zeros, flush, put, put_field, size_field, put_text,
  size_text, put_texts, size_texts, put_number, size_number, size_of, marshal_of, widen,
}
use shinzohub.Wire.Writer.Fills.{
  EncodesNumbers, Fills, put-Fills, then-Fills, field, text, texts, number, field-Fills, text-Fills,
  texts-Fills, number-Fills, length-field, size_field-length, size_text-length, size_texts-length,
  size_number-length,
}

-- Unless it is too long, `bs` is what `f` puts before what is written, and `size` is its length.
unfoldable pub Writes : (Buffer → Result Halt Buffer) → ℕ → Bytes → Type 0
Writes f size bs = length bs < 2 ^ 63 → Fills f bs × (size ≡ length bs)

pub put-Writes : (s : Bytes) → Writes (put s) (length s) s
unfolding Writes
put-Writes s h = (put-Fills s, refl)

pub then-Writes :
    (f g : Buffer → Result Halt Buffer) (j k : ℕ) (bs cs : Bytes)
    → Writes f j bs
    → Writes g k cs
    → Writes (f >=> g) (k + j) (cs ++ bs)
unfolding Writes
then-Writes f g j k bs cs hf hg h =
    let total = length-append cs bs in
    let (fill, size) = hf (omega arith) in
    let (fill', size') = hg (omega arith) in (then-Fills f g cs bs fill fill', omega arith)

module _ (n : Numbers) (law : EncodesNumbers n) where
  pub text-Writes : (tag : ℕ) (s : Bytes) → Writes (put_text n tag s) (size_text n s) (text tag s)
  unfolding Writes
  text-Writes tag s h = (text-Fills n law tag s h, size_text-length n law tag s h)

  pub field-Writes :
      (tag : ℕ) (s : Bytes) → Writes (put_field n tag s) (size_field n (length s)) (field tag s)
  unfolding Writes
  field-Writes tag s h =
      let short : length s < 2 ^ 63 = omega (arith, length-field tag s) in
      (field-Fills n law tag s short, size_field-length n law tag s short)

  pub texts-Writes :
      (tag : ℕ) (ss : List Bytes) → Writes (put_texts n tag ss) (size_texts n ss) (texts tag ss)
  unfolding Writes
  texts-Writes tag ss h = (texts-Fills n law tag ss h, size_texts-length n law tag ss h)

  pub number-Writes :
      (tag v : ℕ) → v < 2 ^ 64 → Writes (put_number n tag v) (size_number n v) (number tag v)
  unfolding Writes
  number-Writes tag v k h = (number-Fills n law tag v k, size_number-length n law tag v k)

module _ {M : Type 0} (total : M → ℕ) (write : M → Buffer → Result Halt Buffer) (bs : Bytes)
    (x : M) where
  pub size_of-Writes :
      Writes (write x) (total x) bs → length bs < 2 ^ 63 → size_of total (some x) ≡ length bs
  unfolding Writes size_of
  size_of-Writes writes h = omega (arith, (writes h).1)

  -- A buffer of the size of what is put into it is filled exactly.
  pub marshal_of-Writes :
      (options_size : Option M → ℕ) (out : Bytes)
      → options_size (some x) ≡ size_of total (some x)
      → Writes (write x) (total x) bs
      → length bs < 2 ^ 63
      → marshal_of options_size write out (some x) ≡ ok (out ++ bs)
  unfolding marshal_of make_buffer flush zeros Writes Fills
  marshal_of-Writes options_size out own writes h =
      let size = own ∙ size_of-Writes writes h in
      let room : ltb (length bs) (2 ^ 63) ≡ true = ground (arith, h) in
      let none_left : length bs - length bs ≡ 0 = omega arith in
      rw (size, room, (writes h).0 (length bs) [] (omega arith), none_left, append-nil) refl

-- A number of an enumeration that is not negative is widened to itself.
pub widen_self : (r : ℕ) → r < 2 ^ 31 → widen r ≡ r
unfolding widen
widen_self r h = ground (arith, h)

pub widen_small : (r : ℕ) → r < 2 ^ 31 → widen r < 2 ^ 64
widen_small r h = omega (arith, widen_self r h)
