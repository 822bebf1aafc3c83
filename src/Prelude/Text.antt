-- ===== src/Prelude/Text.antt =====
-- Go's strings and byte slices: lists of byte values, and the standard library's `FormatUint`.
use Prim.Native.Nat.{ℕ, zero, suc, ◌+◌, ◌-◌, ◌*◌, ◌/◌, ◌%◌, ◌<◌}
use Prim.Native.Char.{code}
use Prim.Native.String.{String}
use mathlib.Core.Path.{◌≡◌, refl, ap, ◌∙◌, sym}
use mathlib.Core.Logic.{◌≢◌, ◌↔◌, inl, inr}
use mathlib.Core.Bool.{Bool, true, false, ◌&&◌, ◌||◌}
use mathlib.Core.List.{List, [], ◌∷◌, ◌++◌}
use native.Mathlib.Omega.{arith}
use shinzohub.Prelude.Tests.{◌==◌, if◌then◌else◌, Bool-cases}
use shinzohub.Prelude.Lists.{All, Any, All-append_right}

abbrev pub Bytes : Type 0
Bytes = List ℕ

-- The bytes of an ASCII literal.
abbrev pub codes : String → Bytes
codes String.[] = []
codes (String.◌∷◌ c s) = code c ∷ codes s

-- Go's `==` on strings.
unfoldable pub same : Bytes → Bytes → Bool
same [] [] = true
same (x ∷ xs) (y ∷ ys) = (x == y) && same xs ys
same _ _ = false

-- A set of texts, as `map[string]bool` or `map[string]struct{}` of those in a list.
unfoldable pub contains : Bytes → List Bytes → Bool
contains r [] = false
contains r (x ∷ xs) = same r x || contains r xs

pub same→eq : (xs ys : Bytes) → same xs ys ≡ true → xs ≡ ys
unfolding same
same→eq [] [] h = refl
same→eq [] (y ∷ ys) h = cc
same→eq (x ∷ xs) [] h = cc
same→eq (x ∷ xs) (y ∷ ys) h = ground (arith, same→eq xs ys)

pub same_refl : (xs : Bytes) → same xs xs ≡ true
unfolding same
same_refl [] = refl
same_refl (x ∷ xs) = ground (arith, same_refl xs)

pub eq→same : (xs ys : Bytes) → xs ≡ ys → same xs ys ≡ true
eq→same xs ys p = cc (p, same_refl xs)

pub same_iff : (xs ys : Bytes) → (same xs ys ≡ true) ↔ (xs ≡ ys)
same_iff xs ys = (same→eq xs ys, eq→same xs ys)

pub ne→same : (xs ys : Bytes) → xs ≢ ys → same xs ys ≡ false
ne→same xs ys ne = elim (Bool-cases (same xs ys)) [
  | inl e ↦ absurd (ne (same→eq xs ys e))
  | inr e ↦ e
]

pub contains_iff : (r : Bytes) (xs : List Bytes) → (contains r xs ≡ true) ↔ Any (λ a. r ≡ a) xs
unfolding contains
contains_iff r [] = (λ p. absurd (cc), λ p. absurd p)
contains_iff r (x ∷ xs) = (
  λ p. elim (Bool-cases (same r x)) [
    | inl e ↦ inl (same→eq r x e)
    | inr e ↦ inr ((contains_iff r xs).0 (ground (arith, e, p)))
  ],
  λ q. elim q [
    | inl e ↦ ground (arith, eq→same r x e)
    | inr m ↦ ground (arith, (contains_iff r xs).1 m)
  ],
)

pub same→ne : (a b : Bytes) → same a b ≡ false → a ≢ b
same→ne a b e p = cc (e, eq→same a b p)

-- `s == ""`, `len(s) == 0`
abbrev pub is_empty : Bytes → Bool
is_empty [] = true
is_empty (x ∷ xs) = false

-- A text is cut at the last `c`: what stands before and behind it is determined.
pub cut_last :
    (c : ℕ) (a b xs ys : Bytes)
    → All (λ x. x ≢ c) xs
    → All (λ y. y ≢ c) ys
    → a ++ (c ∷ xs) ≡ b ++ (c ∷ ys)
    → (a ≡ b) × (xs ≡ ys)
cut_last c [] [] xs ys hx hy e = (refl, cc)
cut_last c [] (y ∷ b) xs ys hx hy e =
    let tail : xs ≡ b ++ (c ∷ ys) = cc in
    let all : All (λ x. x ≢ c) (b ++ (c ∷ ys)) = rw tail at hx in
    absurd ((All-append_right (λ x. x ≢ c) b (c ∷ ys) all).0 refl)
cut_last c (x ∷ a) [] xs ys hx hy e =
    let tail : ys ≡ a ++ (c ∷ xs) = cc in
    let all : All (λ y. y ≢ c) (a ++ (c ∷ xs)) = rw tail at hy in
    absurd ((All-append_right (λ y. y ≢ c) a (c ∷ xs) all).0 refl)
cut_last c (x ∷ a) (y ∷ b) xs ys hx hy e =
    let ih = cut_last c a b xs ys hx hy (cc) in (cc (ih.0), ih.1)

-- Both texts begin alike: the rests are equal.
pub append_cancel : (p xs ys : Bytes) → p ++ xs ≡ p ++ ys → xs ≡ ys
append_cancel [] xs ys e = e
append_cancel (x ∷ p) xs ys e = append_cancel p xs ys (cc)

-- The digits of `n` before `acc`; `fuel` above `n` is enough.
unfoldable pub format_digits : ℕ → ℕ → Bytes → Bytes
format_digits zero n acc = acc
format_digits (suc fuel) n acc =
    let acc' = (48 + n % 10) ∷ acc in
    let rest = format_digits fuel (n / 10) acc' in if n / 10 == 0 then acc' else rest

-- `strconv.FormatUint(n, 10)`
unfoldable pub format_uint : ℕ → Bytes
unfolding format_digits
format_uint n = format_digits (suc n) n []

-- The number that decimal digits write, after `n`.
read_digits : ℕ → Bytes → ℕ
read_digits n [] = n
read_digits n (c ∷ cs) = read_digits (n * 10 + (c - 48)) cs

read-format_digits :
    (fuel n : ℕ) (acc : Bytes)
    → n < fuel
    → read_digits 0 (format_digits fuel n acc) ≡ read_digits n acc
unfolding format_digits read_digits
read-format_digits zero n acc h = elim h [ ]
read-format_digits (suc fuel) n acc h = elim (Bool-cases (n / 10 == 0)) [
  | inl last ↦ rw last (ap (λ k. read_digits k acc) (ground arith))
  | inr more ↦ rw more (
      read-format_digits fuel (n / 10) ((48 + n % 10) ∷ acc) (ground arith)
      ∙ ap (λ k. read_digits k acc) (omega arith))
]

-- Decimal printing is injective.
pub format_uint_injective : (m n : ℕ) → format_uint m ≡ format_uint n → m ≡ n
unfolding format_uint read_digits
format_uint_injective m n e =
    sym (read-format_digits (suc m) m [] (omega arith))
    ∙ ap (read_digits 0) e
    ∙ read-format_digits (suc n) n [] (omega arith)

format_digits-All :
    (fuel n : ℕ) (acc : Bytes)
    → All (λ c. c ≢ 58) acc
    → All (λ c. c ≢ 58) (format_digits fuel n acc)
unfolding format_digits
format_digits-All zero n acc h = h
format_digits-All (suc fuel) n acc h = elim (Bool-cases (n / 10 == 0)) [
  | inl last ↦ rw last (omega arith, h)
  | inr more ↦ rw more (format_digits-All fuel (n / 10) ((48 + n % 10) ∷ acc) (omega arith, h))
]

-- A printed number holds no colon.
pub format_uint_no_colon : (n : ℕ) → All (λ c. c ≢ 58) (format_uint n)
unfolding format_uint
format_uint_no_colon n = format_digits-All (suc n) n [] tt
