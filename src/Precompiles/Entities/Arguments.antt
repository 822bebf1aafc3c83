-- ===== src/Precompiles/Entities/Arguments.antt =====
-- When the arguments of a call have the types that app/precompiles/entityregistry/method.go asserts.
use shinzohub.Prelude.{ℕ, Bytes, some, List, [], ◌∷◌, ok, Option-cases, ◌≡◌, ◌≢◌, ◌↔◌, inl, inr}
use shinzohub.Precompiles.Evm.{Arg, bytes, uint8, bytes32, other, arg_at}
use shinzohub.Precompiles.Entities.{bytes_argument, entity_argument}

-- The argument is a byte string, and not an empty one.
abbrev pub IsBytes : List Arg → ℕ → Bytes → Type 0
IsBytes args i b = (arg_at args i ≡ some (bytes b)) × (b ≢ [])

pub bytes_argument_iff :
    (name : Bytes) (args : List Arg) (i : ℕ) (b : Bytes)
    → (bytes_argument name args i ≡ ok b) ↔ IsBytes args i b
unfolding bytes_argument
bytes_argument_iff name args i b = elim (Option-cases (arg_at args i)) [
  | inl p ↦ rw p (λ h. absurd (cc), λ h. absurd (cc h.0))
  | inr (bytes [], p) ↦ rw p (λ h. absurd (cc), λ h. absurd (h.1 (cc h.0)))
  | inr (bytes (c ∷ x), p) ↦ rw p (λ h. (cc, λ z. absurd (cc)), λ h. cc h.0)
  | inr (uint8 n, p) ↦ rw p (λ h. absurd (cc), λ h. absurd (cc h.0))
  | inr (bytes32 x, p) ↦ rw p (λ h. absurd (cc), λ h. absurd (cc h.0))
  | inr (other, p) ↦ rw p (λ h. absurd (cc), λ h. absurd (cc h.0))
]

pub entity_argument_iff :
    (args : List Arg) (i n : ℕ) → (entity_argument args i ≡ ok n) ↔ (arg_at args i ≡ some (uint8 n))
unfolding entity_argument
entity_argument_iff args i n = elim (Option-cases (arg_at args i)) [
  | inl p ↦ rw p (λ h. absurd (cc), λ h. absurd (cc))
  | inr (uint8 x, p) ↦ rw p (λ h. cc, λ h. cc)
  | inr (bytes x, p) ↦ rw p (λ h. absurd (cc), λ h. absurd (cc))
  | inr (bytes32 x, p) ↦ rw p (λ h. absurd (cc), λ h. absurd (cc))
  | inr (other, p) ↦ rw p (λ h. absurd (cc), λ h. absurd (cc))
]
