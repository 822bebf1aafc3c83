-- ===== src/Wire/Bits.antt =====
-- The machine's `|`, as the readers of numbers use it to set the next seven bits.
use Prim.Native.Nat.{
  ℕ, zero, suc, ◌+◌, ◌*◌, ◌/◌, ◌^◌, ◌≤◌, ◌<◌, max, bit_or, digits, bit_or-bitwise,
}
use shinzohub.Prelude.{◌≡◌, ap, ◌∙◌, arith}
use native.Mathlib.Nat.{pow-suc}
use native.Mathlib.Numerals.{towards_suc}

twice_one : (s : ℕ) → 2 ^ suc s ≡ 2 ^ s * 2
twice_one s = pow-suc 2 s

twice : (b s : ℕ) → b * 2 ^ suc s ≡ b * 2 ^ s * 2
twice b s = omega (arith, ap (λ (t : ℕ). b * t) (twice_one s))

-- Digits that stand above the first number's are copied.
digits_above :
    (n a b s : ℕ) → a ≤ n → a < 2 ^ s → digits (λ y. y) max n a (b * 2 ^ s) ≡ a + b * 2 ^ s
digits_above zero zero b s h k = omega arith
digits_above zero (suc a) b s h k = absurd (omega arith)
digits_above (suc n) zero b s h k = omega arith
digits_above (suc n) (suc a) b zero h k = absurd (omega arith)
digits_above (suc n) (suc a) b (suc s) h k =
    let half : b * 2 ^ suc s / 2 ≡ b * 2 ^ s = omega (arith, twice b s) in
    let low : suc a / 2 < 2 ^ s = omega (arith, twice_one s) in
    let rec = digits_above n (suc a / 2) b s (omega arith) low in
    rw half (rw rec (omega (arith, twice b s)))

-- Where no two bits meet, `|` adds.
pub bit_or-add : (a b s : ℕ) → a < 2 ^ s → bit_or a (b * 2 ^ s) ≡ a + b * 2 ^ s
bit_or-add a b s h = bit_or-bitwise a (b * 2 ^ s) ∙ digits_above a a b s (omega arith) h

pub power_add_seven : (s : ℕ) → 2 ^ (s + 7) ≡ 128 * 2 ^ s
power_add_seven s = simp towards_suc (omega arith)
