-- ===== src/Precompiles/Sdl/Laws.antt =====
-- What the match of the regular expression of app/precompiles/viewregistry/methods.go is.
use shinzohub.Prelude.{
  ℕ, Bytes, Bool, true, false, Option, none, some, [], ◌∷◌, ◌++◌, append_assoc, is_empty, ◌==◌,
  if◌then◌else◌, span, span-append, span-All, Stops, span-Stops, All, Bool-cases, Option-cases, ◌≡◌,
  ◌≢◌, refl, ap, sym, inl, inr, subst, arith,
}
use shinzohub.Precompiles.Sdl.{
  Match, is_word, is_blank, strip_prefix, keyword, match_rest, match_here, find_from, find_type,
  shift,
}

-- The match cuts the text into what is before the name, the name and what is after it; the name is a
-- whole word.
pub record IsMatch (s : Bytes) (m : Match) : Type 0 where
  pub cuts : s ≡ (m.before ++ m.name) ++ m.after
  pub non_empty : m.name ≢ []
  pub word : All (λ c. is_word c ≡ true) m.name
  pub boundary : Stops is_word m.after

strip_prefix-some : (p s rest : Bytes) → strip_prefix p s ≡ some rest → s ≡ p ++ rest
unfolding strip_prefix
strip_prefix-some [] s rest = λ h. ground (arith, h)
strip_prefix-some (p ∷ ps) [] rest = λ h. absurd (cc)
strip_prefix-some (p ∷ ps) (c ∷ cs) rest = elim (Bool-cases (p == c)) [
  | inl e ↦
      rw e
        (λ h. let first : p ≡ c = ground (arith, e) in cc (strip_prefix-some ps cs rest h, first))
  | inr e ↦ rw e (λ h. absurd (cc))
]

name-ne : (xs : Bytes) → is_empty xs ≡ false → xs ≢ []
name-ne [] h = absurd (cc)
name-ne (x ∷ xs) h = λ p. cc

rest-cut :
    (rest : Bytes)
    → keyword ++ rest
      ≡ ((keyword ++ (span is_blank rest).0) ++ (span is_word (span is_blank rest).1).0)
        ++ (span is_word (span is_blank rest).1).1
rest-cut rest =
    rw
      (
        append_assoc (keyword ++ (span is_blank rest).0) (span is_word (span is_blank rest).1).0
            (span is_word (span is_blank rest).1).1,
        span-append is_word (span is_blank rest).1,
        append_assoc keyword (span is_blank rest).0 (span is_blank rest).1,
        span-append is_blank rest,
      )
      refl

abbrev rest_match : Bytes → Match
rest_match rest = record {
  before = keyword ++ (span is_blank rest).0;
  name = (span is_word (span is_blank rest).1).0;
  after = (span is_word (span is_blank rest).1).1;
}

match_rest-IsMatch :
    (rest : Bytes) (m : Match) → match_rest rest ≡ some m → IsMatch (keyword ++ rest) m
unfolding match_rest
match_rest-IsMatch rest m = elim (Bool-cases (is_empty (span is_blank rest).0)) [
  | inl e ↦ rw e (λ h. absurd (cc))
  | inr e ↦ rw e (elim (Bool-cases (is_empty (span is_word (span is_blank rest).1).0)) [
    | inl f ↦ rw f (λ h. absurd (cc))
    | inr f ↦ rw f (λ h.
        let whole : rest_match rest ≡ m = ground (arith, h) in
        subst (IsMatch (keyword ++ rest)) whole (record {
          cuts = rest-cut rest;
          non_empty = name-ne _ f;
          word = span-All is_word (span is_blank rest).1;
          boundary = span-Stops is_word (span is_blank rest).1;
        }))
  ])
]

match_here-IsMatch : (s : Bytes) (m : Match) → match_here s ≡ some m → IsMatch s m
unfolding match_here strip_prefix
match_here-IsMatch s m = elim (Option-cases (strip_prefix keyword s)) [
  | inl p ↦ rw p (λ h. absurd (cc))
  | inr (rest, p) ↦ rw p (λ h.
      subst (λ t. IsMatch t m) (sym (strip_prefix-some keyword s rest p))
        (match_rest-IsMatch rest m h))
]

shift-IsMatch : (c : ℕ) (s : Bytes) (m : Match) → IsMatch s m → IsMatch (c ∷ s) (shift c m)
shift-IsMatch c s m h = record {
  cuts = ap (λ t. c ∷ t) h.cuts;
  non_empty = h.non_empty;
  word = h.word;
  boundary = h.boundary;
}

shifted :
    (c : ℕ) (cs : Bytes) (m : Match) (later : Option Match)
    → ((n : Match) → later ≡ some n → IsMatch cs n)
    → (elim later [ none ↦ none | some n ↦ some (shift c n) ]) ≡ some m
    → IsMatch (c ∷ cs) m
shifted c cs m none ih h = absurd (cc)
shifted c cs m (some n) ih h =
    let same_match : shift c n ≡ m = ground (arith, h) in
    subst (IsMatch (c ∷ cs)) same_match (shift-IsMatch c cs n (ih n refl))

either :
    (c : ℕ) (cs : Bytes) (m : Match) (now later : Option Match)
    → ((n : Match) → now ≡ some n → IsMatch (c ∷ cs) n)
    → ((n : Match) → later ≡ some n → IsMatch cs n)
    → (elim now [ some n ↦ some n | none ↦ elim later [ none ↦ none | some n ↦ some (shift c n) ] ])
      ≡ some m
    → IsMatch (c ∷ cs) m
either c cs m none later here ih h = shifted c cs m later ih h
either c cs m (some n) later here ih h = here m h

found :
    (inside : Bool) (s : Bytes) (m : Match)
    → (if inside then none else match_here s) ≡ some m
    → IsMatch s m
found true s m h = absurd (cc)
found false s m h = match_here-IsMatch s m h

find_from-IsMatch :
    (inside : Bool) (s : Bytes) (m : Match) → find_from inside s ≡ some m → IsMatch s m
unfolding find_from
find_from-IsMatch inside [] m h = absurd (cc)
find_from-IsMatch inside (c ∷ cs) m h =
    either c cs m (if inside then none else match_here (c ∷ cs)) (find_from (is_word c) cs)
      (found inside (c ∷ cs)) (find_from-IsMatch (is_word c) cs) h

-- A type that is found in a schema text cuts the text into three parts: before the name, the name,
-- which is a word of at least one character, and after it, where no word character follows.
pub find_type-IsMatch : (s : Bytes) (m : Match) → find_type s ≡ some m → IsMatch s m
unfolding find_type
find_type-IsMatch s m h = find_from-IsMatch false s m h
