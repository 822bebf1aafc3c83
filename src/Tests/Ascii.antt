-- ===== src/Tests/Ascii.antt =====
-- Folding and trimming of ASCII texts, which stand in for those of Go in the tests: to do them twice is
-- to do them once.
use shinzohub.Prelude.{
  ℕ, Bytes, Bool, false, [], ◌∷◌, ◌+◌, ◌≡◌, inl, inr, refl, arith, map, is_empty, leb, ◌==◌, ◌&&◌,
  ◌||◌, if◌then◌else◌, Bool-cases,
}
use shinzohub.Sourcehub.Messages.{Strings, normalize}
use shinzohub.Sourcehub.Messages.Objects.{Settles}

-- A letter in lower case
unfoldable pub lower : ℕ → ℕ
lower c = if leb b'A' c && leb c b'Z' then c + 32 else c

unfoldable pub to_lower : Bytes → Bytes
unfolding lower
to_lower = map lower

-- White space: a blank and the bytes from tab to carriage return.
unfoldable pub is_space : ℕ → Bool
is_space c = (c == 32) || (leb 9 c && leb c 13)

unfoldable pub trim_left : Bytes → Bytes
trim_left [] = []
trim_left (x ∷ xs) = let rest = trim_left xs in if is_space x then rest else x ∷ xs

unfoldable pub trim_right : Bytes → Bytes
trim_right [] = []
trim_right (x ∷ xs) =
    let rest = trim_right xs in if is_empty rest && is_space x then [] else x ∷ rest

unfoldable pub trim_space : Bytes → Bytes
trim_space s = trim_right (trim_left s)

unfoldable pub ascii : Strings
ascii = record { to_lower = to_lower; trim_space = trim_space }

lower_idem : (c : ℕ) → lower (lower c) ≡ lower c
unfolding lower
lower_idem c = ground arith

is_space-lower : (c : ℕ) → is_space (lower c) ≡ is_space c
unfolding lower is_space
is_space-lower c = ground arith

to_lower_idem : (s : Bytes) → to_lower (to_lower s) ≡ to_lower s
unfolding to_lower
to_lower_idem [] = refl
to_lower_idem (c ∷ s) = cc (lower_idem c, to_lower_idem s)

to_lower-trim_left : (s : Bytes) → to_lower (trim_left s) ≡ trim_left (to_lower s)
unfolding to_lower trim_left
to_lower-trim_left [] = refl
to_lower-trim_left (c ∷ s) = ground (arith, is_space-lower c, to_lower-trim_left s)

is_empty-to_lower : (s : Bytes) → is_empty (to_lower s) ≡ is_empty s
unfolding to_lower
is_empty-to_lower [] = refl
is_empty-to_lower (c ∷ s) = refl

to_lower-trim_right : (s : Bytes) → to_lower (trim_right s) ≡ trim_right (to_lower s)
unfolding to_lower trim_right
to_lower-trim_right [] = refl
to_lower-trim_right (c ∷ s) =
    ground (arith, is_space-lower c, to_lower-trim_right s, is_empty-to_lower (trim_right s))

trim_right_idem : (s : Bytes) → trim_right (trim_right s) ≡ trim_right s
unfolding trim_right
trim_right_idem [] = refl
trim_right_idem (c ∷ s) = ground (arith, trim_right_idem s)

-- A text without a leading blank.
abbrev IsLeft : Bytes → Type 0
IsLeft [] = Unit {0}
IsLeft (c ∷ s) = is_space c ≡ false

trim_left-IsLeft : (s : Bytes) → IsLeft (trim_left s)
unfolding trim_left
trim_left-IsLeft [] = tt
trim_left-IsLeft (c ∷ s) = elim (Bool-cases (is_space c)) [
  | inl e ↦ rw e (trim_left-IsLeft s)
  | inr e ↦ rw e e
]

trim_left-IsLeft_eq : (s : Bytes) → IsLeft s → trim_left s ≡ s
unfolding trim_left
trim_left-IsLeft_eq [] h = refl
trim_left-IsLeft_eq (c ∷ s) h = rw h

trim_right-IsLeft : (s : Bytes) → IsLeft s → IsLeft (trim_right s)
unfolding trim_right
trim_right-IsLeft [] h = tt
trim_right-IsLeft (c ∷ s) h = elim (Bool-cases (is_empty (trim_right s))) [
  | inl e ↦ rw (e, h) h
  | inr e ↦ rw (e, h)
]

ascii-Settles : Settles ascii
unfolding normalize ascii trim_space
ascii-Settles s =
    let u = trim_left (to_lower s) in
    rw (
      to_lower-trim_right u,
      to_lower-trim_left (to_lower s),
      to_lower_idem s,
      trim_left-IsLeft_eq (trim_right u) (trim_right-IsLeft u (trim_left-IsLeft (to_lower s))),
      trim_right_idem u,
    )
