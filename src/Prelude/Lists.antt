-- ===== src/Prelude/Lists.antt =====
-- Lists measured by native numbers, and the predicates on them that compute.
use Prim.Native.Nat.{ℕ, suc, ◌+◌}
use mathlib.Core.Path.{◌≡◌, refl, subst}
use mathlib.Core.Logic.{◌⊎◌, inl, inr, ◌↔◌}
use mathlib.Core.List.{List, [], ◌∷◌, ◌++◌}
use native.Mathlib.Omega.{arith}

module _ {ℓ} {A : Type ℓ} where
  abbrev pub length : List A → ℕ
  length [] = 0
  length (x ∷ xs) = suc (length xs)

  pub length-append : (xs ys : List A) → length (xs ++ ys) ≡ length xs + length ys
  length-append [] ys = omega arith
  length-append (x ∷ xs) ys = omega (arith, length-append xs ys)

  abbrev pub All {κ} : (A → Type κ) → List A → Type κ
  All P [] = Unit
  All P (x ∷ xs) = P x × All P xs

  pub All-tabulate {κ} : (P : A → Type κ) (xs : List A) → ((x : A) → P x) → All P xs
  All-tabulate P [] h = tt
  All-tabulate P (x ∷ xs) h = (h x, All-tabulate P xs h)

  -- A property with a parameter holds of all for each of its values.
  pub All-commute {κ} :
      {S : Type κ} (P : S → A → Type κ) (xs : List A)
      → ((s : S) → All (P s) xs)
      → All (λ x. (s : S) → P s x) xs
  All-commute P [] h = tt
  All-commute P (x ∷ xs) h = ((λ s. (h s).0), All-commute P xs (λ s. (h s).1))

  abbrev pub Any : (A → Type 0) → List A → Type 0
  Any P [] = ⊥
  Any P (x ∷ xs) = P x ⊎ Any P xs

  pub All-append {κ} : (P : A → Type κ) (xs ys : List A) → All P xs → All P ys → All P (xs ++ ys)
  All-append P [] ys h k = k
  All-append P (x ∷ xs) ys h k = (h.0, All-append P xs ys h.1 k)

  pub All-append_right {κ} : (P : A → Type κ) (xs ys : List A) → All P (xs ++ ys) → All P ys
  All-append_right P [] ys h = h
  All-append_right P (x ∷ xs) ys h = All-append_right P xs ys h.1

module _ {A : Type 0} where
  pub Any-witness : (P : A → Type 0) (xs : List A) → Any P xs → (x : A) × Any (λ y. x ≡ y) xs × P x
  Any-witness P [] h = absurd h
  Any-witness P (x ∷ xs) (inl p) = (x, inl refl, p)
  Any-witness P (x ∷ xs) (inr h) = let (y, m, p) = Any-witness P xs h in (y, inr m, p)

  pub witness-Any : (P : A → Type 0) (xs : List A) (x : A) → Any (λ y. x ≡ y) xs → P x → Any P xs
  witness-Any P [] x h p = absurd h
  witness-Any P (y ∷ ys) x (inl e) p = inl (subst P e p)
  witness-Any P (y ∷ ys) x (inr h) p = inr (witness-Any P ys x h p)

  pub Any-append : (P : A → Type 0) (xs ys : List A) → Any P (xs ++ ys) ↔ (Any P xs ⊎ Any P ys)
  Any-append P [] ys = (λ h. inr h, λ h. elim h [ inl b ↦ absurd b | inr m ↦ m ])
  Any-append P (x ∷ xs) ys =
      let rest = Any-append P xs ys in
      (
        λ h. elim h [
          | inl p ↦ inl (inl p)
          | inr m ↦ elim (rest.0 m) [ inl u ↦ inl (inr u) | inr v ↦ inr v ]
        ],
        λ h. elim h [
          | inl (inl p) ↦ inl p
          | inl (inr u) ↦ inr (rest.1 (inl u))
          | inr v ↦ inr (rest.1 (inr v))
        ],
      )
