-- ===== src/Wire/Loop/Parses.antt =====
-- The loop of `unmarshal` on fields that the writers wrote.
use shinzohub.Prelude.{
  ℕ, zero, suc, ◌+◌, ◌*◌, ◌^◌, ◌<◌, ◌≡◌, ◌≢◌, refl, sym, ap, ◌∙◌, arith, List, [], ◌∷◌, ◌++◌, Bool,
  Bytes, length, length-append, append_assoc, append-nil, ok, some, ◌==◌, Bool-cases, ==_iff, inl,
  inr,
}
use shinzohub.Wire.Reader.{Cursor, cursor, read_bytes, text_case, number_case}
use shinzohub.Wire.Reader.Varint.{varint, read_varint-varint}
use shinzohub.Wire.Reader.Reads.{read_tag_one, read_bytes_all}
use shinzohub.Wire.Writer.Fills.{field, text, texts, number}
use shinzohub.Wire.Loop.{Message, Skip, Switch, dispatch, read_field, unmarshal_loop, unmarshal_of}

module _ (skip : Skip) (discard : Bool) {M : Type 0} (switch : Switch M) (unknown : Bytes) where
  abbrev with_unknown : M → Message M
  with_unknown m = record { body = m; unknown_fields = unknown }

  -- Wherever they stand, the bytes `bs` make `y` of `x`.
  pub Parses : M → Bytes → M → Type 0
  Parses x bs y =
      (i fuel : ℕ)
      → i + length bs < 2 ^ 63
      → length bs < fuel
      → unmarshal_loop skip discard switch fuel (with_unknown x) (cursor i bs) ≡ ok (with_unknown y)

  pub nothing-Parses : (x : M) → Parses x [] x
  unfolding Parses unmarshal_loop
  nothing-Parses x i zero h k = absurd (omega arith)
  nothing-Parses x i (suc fuel) h k = refl

  -- It is enough to look at bytes that are not too many.
  pub short_Parses : (x y : M) (bs : Bytes) → (length bs < 2 ^ 63 → Parses x bs y) → Parses x bs y
  unfolding Parses
  short_Parses x y bs parses i fuel h f = parses (omega arith) i fuel h f

  -- A field behind a tag of one byte, that its case reads.
  case_Parses :
      (k wire_type : ℕ) (payload more : Bytes) (x x' y : M)
      → 0 < k
      → k < 16
      → wire_type < 8
      → wire_type ≢ 4
      → ((i : ℕ)
          → i + length (payload ++ more) < 2 ^ 63
          → switch k wire_type x (cursor i (payload ++ more))
            ≡ some (ok (x', cursor (i + length payload) more)))
      → Parses x' more y
      → Parses x ((8 * k + wire_type) ∷ (payload ++ more)) y
  unfolding Parses unmarshal_loop read_field dispatch
  case_Parses k wire_type payload more x x' y h₀ h₁ h₂ h₃ case rest i zero h f =
      absurd (omega arith)
  case_Parses k wire_type payload more x x' y h₀ h₁ h₂ h₃ case rest i (suc fuel) h f =
      let total = length-append payload more in
      rw (read_tag_one k wire_type i (payload ++ more) h₀ h₁ h₂ h₃, case (i + 1) (omega arith))
        (rest (i + 1 + length payload) fuel (omega arith) (omega arith))

  -- A field of bytes behind their length, with the tag `8 * k + 2`.
  pub bytes_Parses :
      (k : ℕ) (s more : Bytes) (x x' y : M)
      → 0 < k
      → k < 16
      → ((c c' : Cursor) → read_bytes c ≡ ok (s, c') → switch k 2 x c ≡ some (ok (x', c')))
      → Parses x' more y
      → Parses x (field (8 * k + 2) s ++ more) y
  unfolding field
  bytes_Parses k s more x x' y h₀ h₁ case rest =
      case_Parses k 2 (varint (length s) ++ s) more x x' y h₀ h₁ (omega arith) (λ p. omega arith)
        (λ i h.
          let total = length-append (varint (length s) ++ s) more in
          let inner = length-append (varint (length s)) s in
          let place : i + length (varint (length s)) + length s
              ≡ i + length (varint (length s) ++ s) =
            omega arith in
          case _ _ (
            rw append_assoc (read_bytes_all s more i (omega arith))
            ∙ ap (λ j. ok (s, cursor j more)) place))
        rest

  field-Parses :
      (k : ℕ) (s more : Bytes) (x y : M) (set : Bytes → M)
      → 0 < k
      → k < 16
      → ((c : Cursor) → switch k 2 x c ≡ some (text_case k 2 c set))
      → Parses (set s) more y
      → Parses x (field (8 * k + 2) s ++ more) y
  unfolding text_case
  field-Parses k s more x y set h₀ h₁ case rest =
      bytes_Parses k s more x (set s) y h₀ h₁ (λ c c' read. rw (case c, read) refl) rest

  -- A text that is left out is the text of the fresh message.
  pub text-Parses :
      (k : ℕ) (s more : Bytes) (x y : M) (set : Bytes → M)
      → 0 < k
      → k < 16
      → ((c : Cursor) → switch k 2 x c ≡ some (text_case k 2 c set))
      → set [] ≡ x
      → Parses (set s) more y
      → Parses x (text (8 * k + 2) s ++ more) y
  unfolding text
  text-Parses k [] more x y set h₀ h₁ case fresh rest = rw fresh at rest
  text-Parses k (b ∷ s) more x y set h₀ h₁ case fresh rest =
      field-Parses k (b ∷ s) more x y set h₀ h₁ case rest

  pub number-Parses :
      (k m v : ℕ) (more : Bytes) (x y : M) (set : ℕ → M)
      → 0 < k
      → k < 16
      → v < m
      → v < 2 ^ 64
      → ((c : Cursor) → switch k 0 x c ≡ some (number_case k 0 m c set))
      → set 0 ≡ x
      → Parses (set v) more y
      → Parses x (number (8 * k + 0) v ++ more) y
  unfolding number number_case
  number-Parses k m v more x y set h₀ h₁ hm hv case fresh rest = elim (Bool-cases (v == 0)) [
    | inl e ↦ let none_left : v ≡ 0 = (==_iff v 0).0 e in rw e (rw (none_left, fresh) at rest)
    | inr e ↦ rw e (
        case_Parses k 0 (varint v) more x (set v) y h₀ h₁ (omega arith) (λ p. omega arith)
          (λ i h. rw (case _, read_varint-varint m v i more hm hv) refl) rest)
  ]

  -- The elements of a list, each behind the tag.
  pub texts-Parses :
      (k : ℕ) (ss before : List Bytes) (more : Bytes) (y : M) (set : List Bytes → M)
      → 0 < k
      → k < 16
      → ((rs : List Bytes) (c : Cursor)
          → switch k 2 (set rs) c ≡ some (text_case k 2 c (λ s. set (rs ++ (s ∷ [])))))
      → Parses (set (before ++ ss)) more y
      → Parses (set before) (texts (8 * k + 2) ss ++ more) y
  unfolding texts
  texts-Parses k [] before more y set h₀ h₁ case rest = rw append-nil at rest
  texts-Parses k (s ∷ ss) before more y set h₀ h₁ case rest = rw append_assoc (
      field-Parses k s _ (set before) y (λ s. set (before ++ (s ∷ []))) h₀ h₁ (case before)
        (texts-Parses k ss (before ++ (s ∷ [])) more y set h₀ h₁ case
          (rw (sym (append_assoc before (s ∷ []) ss)) at rest)))

  -- The whole input.
  pub unmarshal_of-Parses :
      (x y : M) (bs : Bytes)
      → length bs < 2 ^ 63
      → Parses x bs y
      → unmarshal_of skip discard switch bs (some (with_unknown x)) ≡ ok (some (with_unknown y))
  unfolding Parses unmarshal_of
  unmarshal_of-Parses x y bs h parses =
      rw (parses 0 (suc (length bs)) (omega arith) (omega arith)) refl
