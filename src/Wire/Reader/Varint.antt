-- ===== src/Wire/Reader/Varint.antt =====
-- The variable-length numbers of the protobuf format, and that the readers read them.
use shinzohub.Prelude.{
  ℕ, zero, suc, ◌+◌, ◌*◌, ◌/◌, ◌%◌, ◌^◌, ◌≤◌, ◌<◌, ◌≡◌, ap, ◌∙◌, arith, [], ◌∷◌, ◌++◌, Bytes,
  length, ltb, if◌then◌else◌, ok, Bool-cases, inl, inr,
}
use shinzohub.Wire.Bits.{bit_or-add, power_add_seven}
use shinzohub.Wire.Reader.{cursor, read_number, read_varint}
use native.Mathlib.Nat.{div-add-mod, mul-le-mul_right, mod-eq_of_lt}

-- Groups of seven bits, lowest first, the top bit set on all but the last: at most `n + 1` groups.
unfoldable pub groups : ℕ → ℕ → Bytes
groups zero v = v ∷ []
groups (suc n) v =
    let higher = groups n (v / 128) in if ltb v 128 then v ∷ [] else (128 + v % 128) ∷ higher

-- A `uint64` has ten groups at most.
unfoldable pub varint : ℕ → Bytes
varint v = groups 9 v

group_below : (g t : ℕ) → g < 128 → g * t + t ≤ 128 * t
group_below g t h = omega (arith, mul-le-mul_right t h)

module _ (m : ℕ) where
  -- The last group.
  read_last :
      (v : ℕ) (more : Bytes) (i acc shift : ℕ)
      → v < 128
      → shift ≤ 63
      → acc < 2 ^ shift
      → acc + v * 2 ^ shift < m
      → read_number m (v ∷ more) i acc shift ≡ ok (acc + v * 2 ^ shift, cursor (i + 1) more)
  unfolding read_number
  read_last v more i acc shift hv hs ha hm =
      let fits : v * 2 ^ shift % m ≡ v * 2 ^ shift = mod-eq_of_lt (omega arith) in
      ground (arith, bit_or-add acc v shift ha)

  read_inner :
      (g : ℕ) (more : Bytes) (i acc shift : ℕ)
      → g < 128
      → shift ≤ 63
      → acc < 2 ^ shift
      → acc + g * 2 ^ shift < m
      → read_number m ((128 + g) ∷ more) i acc shift
        ≡ read_number m more (i + 1) (acc + g * 2 ^ shift) (shift + 7)
  unfolding read_number
  read_inner g more i acc shift hv hs ha hm =
      let fits : g * 2 ^ shift % m ≡ g * 2 ^ shift = mod-eq_of_lt (omega arith) in
      ground (arith, bit_or-add acc g shift ha)

  -- The value has two parts: the lowest group, and the rest seven bits up.
  lowest_group : (v s : ℕ) → v * 2 ^ s ≡ v % 128 * 2 ^ s + v / 128 * 2 ^ (s + 7)
  lowest_group v s = omega (
    arith,
    ap (λ (t : ℕ). t * 2 ^ s) (div-add-mod v 128),
    ap (λ (t : ℕ). v / 128 * t) (power_add_seven s),
  )

  read_groups :
      (n v : ℕ) (more : Bytes) (i acc shift : ℕ)
      → v < 128 ^ suc n
      → shift + 7 * n ≡ 63
      → acc < 2 ^ shift
      → acc + v * 2 ^ shift < m
      → read_number m (groups n v ++ more) i acc shift
        ≡ ok (acc + v * 2 ^ shift, cursor (i + length (groups n v)) more)
  unfolding groups
  read_groups zero v more i acc shift hv hs ha hm =
      read_last v more i acc shift (omega arith) (omega arith) ha hm
  read_groups (suc n) v more i acc shift hv hs ha hm = elim (Bool-cases (ltb v 128)) [
    | inl one ↦ rw one (read_last v more i acc shift (ground (arith, one)) (omega arith) ha hm)
    | inr two ↦
        let sum : acc + v % 128 * 2 ^ shift + v / 128 * 2 ^ (shift + 7) ≡ acc + v * 2 ^ shift =
          omega (arith, lowest_group v shift) in
        let place : i + 1 + length (groups n (v / 128)) ≡ i + suc (length (groups n (v / 128))) =
          omega arith in
        rw two (
          read_inner (v % 128) (groups n (v / 128) ++ more) i acc shift (omega arith) (omega arith)
            ha (omega (arith, lowest_group v shift))
          ∙ read_groups n (v / 128) more (i + 1) (acc + v % 128 * 2 ^ shift) (shift + 7)
              (omega arith) (omega arith)
              (omega
                (arith, power_add_seven shift, group_below (v % 128) (2 ^ shift) (omega arith)))
              (omega (arith, lowest_group v shift))
          ∙ cc (sum, place))
  ]

-- A number below `m` is read back from its groups.
pub read_varint-varint :
    (m v i : ℕ) (more : Bytes)
    → v < m
    → v < 2 ^ 64
    → read_varint m (cursor i (varint v ++ more)) ≡ ok (v, cursor (i + length (varint v)) more)
unfolding varint read_varint
read_varint-varint m v i more h k =
    let read =
      read_groups m 9 v more i 0 0 (omega arith) (omega arith) (omega arith) (omega arith) in
    read ∙ ap (λ u. ok (u, cursor (i + length (groups 9 v)) more)) (omega arith)

length-groups : (n v : ℕ) → (1 ≤ length (groups n v)) × (length (groups n v) ≤ n + 1)
unfolding groups
length-groups zero v = omega arith
length-groups (suc n) v = ground (arith, length-groups n (v / 128))

pub length-varint : (v : ℕ) → (1 ≤ length (varint v)) × (length (varint v) ≤ 10)
unfolding varint
length-varint v = length-groups 9 v

pub varint_one : (v : ℕ) → v < 128 → varint v ≡ v ∷ []
unfolding varint groups
varint_one v h = ground (arith, h)
