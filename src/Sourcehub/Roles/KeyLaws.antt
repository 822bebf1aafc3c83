-- ===== src/Sourcehub/Roles/KeyLaws.antt =====
-- The keys of the registration indexes never collide, and the comparison of slices is equality.
use shinzohub.Prelude.{
  ℕ, Bytes, true, [], ◌∷◌, ◌++◌, ◌≡◌, ◌≢◌, refl, sym, ◌∙◌, ap, length, arith, append_assoc, same,
  cut_last, append_cancel, format_uint, format_uint_injective, format_uint_no_colon,
}
use shinzohub.Sourcehub.Keys.{addr_role_prefix, did_role_prefix}
use shinzohub.Sourcehub.Keeper.Laws.{head_or_zero}
use shinzohub.Sourcehub.Roles.{addr_role_key, did_role_key, equal_loop, bytes_equal}

-- A key in the shape prefix, then name, colon and role.
tail : Bytes → ℕ → Bytes
tail name role = name ++ (b':' ∷ format_uint role)

regroup :
    (p name : Bytes) (role : ℕ)
    → ((p ++ name) ++ b':' ∷ []) ++ format_uint role ≡ p ++ tail name role
unfolding tail
regroup p name role = simp append_assoc

tail_injective : (a b : Bytes) (r s : ℕ) → tail a r ≡ tail b s → (a ≡ b) × (r ≡ s)
unfolding tail
tail_injective a b r s e =
    let cut =
      cut_last 58 a b (format_uint r) (format_uint s) (format_uint_no_colon r)
        (format_uint_no_colon s) e in
    (cut.0, format_uint_injective r s cut.1)

-- Two addresses and roles share a key of the address index only if they are the same.
pub addr_role_key_injective :
    (a b : Bytes) (r s : ℕ) → addr_role_key a r ≡ addr_role_key b s → (a ≡ b) × (r ≡ s)
unfolding addr_role_key
addr_role_key_injective a b r s e = tail_injective a b r s (
    append_cancel addr_role_prefix (tail a r) (tail b s)
      (sym (regroup addr_role_prefix a r) ∙ e ∙ regroup addr_role_prefix b s))

pub did_role_key_injective :
    (a b : Bytes) (r s : ℕ) → did_role_key a r ≡ did_role_key b s → (a ≡ b) × (r ≡ s)
unfolding did_role_key
did_role_key_injective a b r s e = tail_injective a b r s (
    append_cancel did_role_prefix (tail a r) (tail b s)
      (sym (regroup did_role_prefix a r) ∙ e ∙ regroup did_role_prefix b s))

pub addr_role_key-head : (a : Bytes) (r : ℕ) → head_or_zero (addr_role_key a r) ≡ 97
unfolding addr_role_key
addr_role_key-head a r = refl

pub did_role_key-head : (d : Bytes) (r : ℕ) → head_or_zero (did_role_key d r) ≡ 100
unfolding did_role_key
did_role_key-head d r = refl

-- The two indexes are disjoint.
pub addr_role_key-ne-did_role_key : (a d : Bytes) (r s : ℕ) → addr_role_key a r ≢ did_role_key d s
addr_role_key-ne-did_role_key a d r s e =
    absurd (omega (arith, addr_role_key-head a r, did_role_key-head d s, ap head_or_zero e))

equal_loop-eq-same : (a b : Bytes) → length a ≡ length b → equal_loop a b ≡ same a b
unfolding equal_loop same
equal_loop-eq-same [] [] h = refl
equal_loop-eq-same [] (y ∷ b) h = absurd (omega arith)
equal_loop-eq-same (x ∷ a) [] h = absurd (omega arith)
equal_loop-eq-same (x ∷ a) (y ∷ b) h = ground (arith, equal_loop-eq-same a b (omega arith))

same-length : (a b : Bytes) → same a b ≡ true → length a ≡ length b
unfolding same
same-length [] [] h = refl
same-length [] (y ∷ b) h = cc
same-length (x ∷ a) [] h = cc
same-length (x ∷ a) (y ∷ b) h = ground (arith, same-length a b)

-- The comparison by length and loop is the equality of byte strings.
pub bytes_equal-eq-same : (a b : Bytes) → bytes_equal a b ≡ same a b
unfolding bytes_equal
bytes_equal-eq-same a b = ground (arith, equal_loop-eq-same a b, same-length a b)
