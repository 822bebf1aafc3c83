-- ===== src/Wire/Writer/Fills.antt =====
-- What each writer adds to a buffer that has room for it.
use shinzohub.Prelude.{
  ℕ, ◌+◌, ◌-◌, ◌%◌, ◌^◌, ◌≤◌, ◌<◌, ◌≡◌, refl, ap, arith, List, [], ◌∷◌, ◌++◌, Bytes, length,
  length-append, append_assoc, ◌==◌, if◌then◌else◌, Result, ok, Bool-cases, inl, inr,
}
use shinzohub.Wire.Reader.Varint.{varint}
use shinzohub.Wire.Writer.{
  Halt, Buffer, buffer, Numbers, ◌>=>◌, put, put_byte, put_field, size_field, put_text, size_text,
  put_texts, size_texts, put_number, size_number,
}

-- The library's numbers: `Sov` counts the bytes of a number in the protobuf format, and
-- `EncodeVarint` puts them before the written part and returns where they begin.
pub record EncodesNumbers (n : Numbers) : Type 0 where
  pub counts : (v : ℕ) → v < 2 ^ 64 → n.sov v ≡ length (varint v)
  pub encodes :
      (v i : ℕ) (bs : Bytes)
      → v < 2 ^ 64
      → length (varint v) ≤ i
      → n.encode_varint v (buffer i bs) ≡ ok (buffer (i - length (varint v)) (varint v ++ bs))

-- `f` puts `bs` before what is written.
unfoldable pub Fills : (Buffer → Result Halt Buffer) → Bytes → Type 0
Fills f bs =
    (i : ℕ) (tail : Bytes)
    → length bs ≤ i
    → f (buffer i tail) ≡ ok (buffer (i - length bs) (bs ++ tail))

pub nothing-Fills : Fills ok []
unfolding Fills
nothing-Fills i tail h = ap (λ j. ok (buffer j tail)) (omega arith)

pub put-Fills : (s : Bytes) → Fills (put s) s
unfolding Fills put
put-Fills s i tail h = ground (arith, h)

pub then-Fills :
    (f g : Buffer → Result Halt Buffer) (bs cs : Bytes)
    → Fills f cs
    → Fills g bs
    → Fills (f >=> g) (bs ++ cs)
unfolding Fills
then-Fills f g bs cs hf hg i tail h =
    let total = length-append bs cs in
    let left : i - length cs - length bs ≡ i - length (bs ++ cs) = omega arith in
    rw (hf i tail (omega arith), hg (i - length cs) (cs ++ tail) (omega arith), left, append_assoc)
      refl

module _ (n : Numbers) (law : EncodesNumbers n) where
  encode-Fills : (v : ℕ) → v < 2 ^ 64 → Fills (n.encode_varint v) (varint v)
  unfolding Fills
  encode-Fills v h i tail k = law.encodes v i tail h k

-- A number, a text and a list of texts as the format has them, each behind its tag.
unfoldable pub field : ℕ → Bytes → Bytes
field tag s = tag ∷ (varint (length s) ++ s)

unfoldable pub text : ℕ → Bytes → Bytes
text tag [] = []
text tag (b ∷ s) = field tag (b ∷ s)

unfoldable pub texts : ℕ → List Bytes → Bytes
texts tag [] = []
texts tag (s ∷ ss) = field tag s ++ texts tag ss

unfoldable pub number : ℕ → ℕ → Bytes
number tag v = if v == 0 then [] else tag ∷ varint v

pub length-field :
    (tag : ℕ) (s : Bytes) → length (field tag s) ≡ 1 + length s + length (varint (length s))
unfolding field
length-field tag s = omega (arith, length-append (varint (length s)) s)

module _ (n : Numbers) (law : EncodesNumbers n) where
  pub field-Fills :
      (tag : ℕ) (s : Bytes) → length s < 2 ^ 63 → Fills (put_field n tag s) (field tag s)
  unfolding put_field field put_byte
  field-Fills tag s h =
      let small : length s % 2 ^ 64 ≡ length s = omega arith in
      rw (small) (
        then-Fills _ (put (tag ∷ [])) (tag ∷ []) (varint (length s) ++ s)
          (then-Fills (put s) (n.encode_varint (length s)) (varint (length s)) s (put-Fills s)
            (encode-Fills n law (length s) (omega arith)))
          (put-Fills (tag ∷ [])))

  pub text-Fills :
      (tag : ℕ) (s : Bytes) → length (text tag s) < 2 ^ 63 → Fills (put_text n tag s) (text tag s)
  unfolding put_text text
  text-Fills tag [] h = nothing-Fills
  text-Fills tag (b ∷ s) h = field-Fills tag (b ∷ s) (omega (arith, length-field tag (b ∷ s)))

  pub texts-Fills :
      (tag : ℕ) (ss : List Bytes)
      → length (texts tag ss) < 2 ^ 63
      → Fills (put_texts n tag ss) (texts tag ss)
  unfolding put_texts texts
  texts-Fills tag [] h = nothing-Fills
  texts-Fills tag (s ∷ ss) h =
      let total = length-append (field tag s) (texts tag ss) in
      let whole = length-field tag s in
      then-Fills (put_texts n tag ss) (put_field n tag s) (field tag s) (texts tag ss)
        (texts-Fills tag ss (omega arith)) (field-Fills tag s (omega arith))

  pub number-Fills : (tag v : ℕ) → v < 2 ^ 64 → Fills (put_number n tag v) (number tag v)
  unfolding put_number number put_byte Fills
  number-Fills tag v h = elim (Bool-cases (v == 0)) [
    | inl e ↦ rw e nothing-Fills
    | inr e ↦ rw e (
        then-Fills (n.encode_varint v) (put (tag ∷ [])) (tag ∷ []) (varint v)
          (encode-Fills n law v h) (put-Fills (tag ∷ [])))
  ]

  -- The sizes count what is written.
  pub size_field-length :
      (tag : ℕ) (s : Bytes) → length s < 2 ^ 63 → size_field n (length s) ≡ length (field tag s)
  unfolding size_field
  size_field-length tag s h =
      let small : length s % 2 ^ 64 ≡ length s = omega arith in
      rw small (omega (arith, law.counts (length s) (omega arith), length-field tag s))

  pub size_text-length :
      (tag : ℕ) (s : Bytes) → length (text tag s) < 2 ^ 63 → size_text n s ≡ length (text tag s)
  unfolding size_text text
  size_text-length tag [] h = refl
  size_text-length tag (b ∷ s) h =
      size_field-length tag (b ∷ s) (omega (arith, length-field tag (b ∷ s)))

  pub size_texts-length :
      (tag : ℕ) (ss : List Bytes)
      → length (texts tag ss) < 2 ^ 63
      → size_texts n ss ≡ length (texts tag ss)
  unfolding size_texts texts
  size_texts-length tag [] h = refl
  size_texts-length tag (s ∷ ss) h =
      let total = length-append (field tag s) (texts tag ss) in
      let whole = length-field tag s in
      omega (arith, size_texts-length tag ss (omega arith), size_field-length tag s (omega arith))

  pub size_number-length : (tag v : ℕ) → v < 2 ^ 64 → size_number n v ≡ length (number tag v)
  unfolding size_number number
  size_number-length tag v h = ground (arith, law.counts v h)
