-- ===== src/Prelude/Span.antt =====
-- A text cut where a test first fails.
use mathlib.Core.Path.{◌≡◌, refl}
use mathlib.Core.Bool.{Bool, true, false}
use mathlib.Core.Logic.{inl, inr}
use mathlib.Core.List.{List, [], ◌∷◌, ◌++◌}
use shinzohub.Prelude.Tests.{if◌then◌else◌, Bool-cases}
use shinzohub.Prelude.Lists.{All}

module _ {A : Type 0} where
  -- The longest beginning whose elements pass the test, and the rest.
  unfoldable pub span : (A → Bool) → List A → List A × List A
  span test [] = ([], [])
  span test (c ∷ cs) =
      let rest = span test cs in if test c then (c ∷ rest.0, rest.1) else ([], c ∷ cs)

  pub span-append : (test : A → Bool) (s : List A) → (span test s).0 ++ (span test s).1 ≡ s
  unfolding span
  span-append test [] = refl
  span-append test (c ∷ cs) = elim (Bool-cases (test c)) [
    | inl e ↦ rw (e, span-append test cs) refl
    | inr e ↦ rw e refl
  ]

  pub span-All : (test : A → Bool) (s : List A) → All (λ c. test c ≡ true) (span test s).0
  unfolding span
  span-All test [] = tt
  span-All test (c ∷ cs) = elim (Bool-cases (test c)) [
    | inl e ↦ rw e (e, span-All test cs)
    | inr e ↦ rw e tt
  ]

  -- The text is empty or its first element fails the test.
  abbrev pub Stops : (A → Bool) → List A → Type 0
  Stops test [] = Unit
  Stops test (c ∷ cs) = test c ≡ false

  pub span-Stops : (test : A → Bool) (s : List A) → Stops test (span test s).1
  unfolding span
  span-Stops test [] = tt
  span-Stops test (c ∷ cs) = elim (Bool-cases (test c)) [
    | inl e ↦ rw e (span-Stops test cs)
    | inr e ↦ rw e e
  ]

  pub span_of_stop : (test : A → Bool) (s : List A) → Stops test s → span test s ≡ ([], s)
  unfolding span
  span_of_stop test [] h = refl
  span_of_stop test (c ∷ cs) h = rw h refl

  pub span-before_stop :
      (test : A → Bool) (xs ys : List A)
      → All (λ c. test c ≡ true) xs
      → Stops test ys
      → span test (xs ++ ys) ≡ (xs, ys)
  unfolding span
  span-before_stop test [] ys h k = span_of_stop test ys k
  span-before_stop test (x ∷ xs) ys h k = rw (h.0, span-before_stop test xs ys h.1 k) refl
