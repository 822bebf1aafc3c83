-- ===== src/Wire/Reflection/Laws.antt =====
-- What the reflection of any message promises, if its fields are kept apart.
use shinzohub.Prelude.{
  if◌then◌else◌, Bool, true, ℕ, List, [], ◌∷◌, false, Bytes, same, same→eq, ok, and_then-ok,
  ok_injective, ◌≡◌, ◌≢◌, ◌⊎◌, inl, inr, refl, ap, subst, sym, ◌∙◌, Result-cases, All, Bool-cases,
}
use shinzohub.Wire.Reflection.{
  range_of, FieldDescriptor, Value, string_value, enum_value, uint_value, Field, set_string,
  set_enum, set_uint, find_field, has_of, get_of, set_of, clear_of, new_field_of,
}

-- What is set is got back, and the other fields of the list stay.
abbrev pub SetsOnly : {M : Type 0} → List (Field M) → Field M → Type 0
SetsOnly {M = M} fields f =
    (v : Value) (x y : M)
    → f.set v x ≡ ok y
    → (f.get y ≡ v) × All (λ g. (g.name ≡ f.name) ⊎ (g.get y ≡ g.get x)) fields

-- A field with the value of a new message is not there.
abbrev pub ClearsHas : {M : Type 0} → Field M → Type 0
ClearsHas {M = M} f = (y : M) → f.get y ≡ f.new_field → f.has y ≡ false

-- A descriptor that is asked for its name only.
abbrev pub named : Bytes → FieldDescriptor
named n = record { full_name = n; is_extension = false }

-- The field is the first of its name.
abbrev pub IsFound : {M : Type 0} → List (Field M) → Field M → Type 0
IsFound fields f = find_field (named f.name) fields ≡ ok f

module _ {M : Type 0} where
  find_field-All :
      (P : Field M → Type 0) (fd : FieldDescriptor) (fields : List (Field M)) (f : Field M)
      → All P fields
      → find_field fd fields ≡ ok f
      → P f × (fd.full_name ≡ f.name)
  unfolding find_field
  find_field-All P fd [] f h e = elim (Bool-cases fd.is_extension) [
    | inl i ↦ absurd (cc (rw i at e))
    | inr i ↦ absurd (cc (rw i at e))
  ]
  find_field-All P fd (g ∷ gs) f h e = elim (Bool-cases (same fd.full_name g.name)) [
    | inl i ↦
        let hit : g ≡ f = ok_injective g f (rw i at e) in
        (subst P hit h.0, same→eq fd.full_name g.name i ∙ ap (λ a. a.name) hit)
    | inr i ↦ find_field-All P fd gs f h.1 (rw i at e)
  ]

  -- A field that is set is got back, and the others are what they were.
  pub set_of-get_of :
      (fields : List (Field M)) (fd : FieldDescriptor) (v : Value) (x y : M)
      → All (SetsOnly fields) fields
      → set_of fields fd v x ≡ ok y
      → (get_of fields fd y ≡ ok v)
        × ((other : FieldDescriptor)
            → other.full_name ≢ fd.full_name
            → get_of fields other y ≡ get_of fields other x)
  unfolding set_of get_of
  set_of-get_of fields fd v x y law e =
      let (f, found, set) = and_then-ok (find_field fd fields) (λ f. f.set v x) y e in
      let (only, name) = find_field-All (SetsOnly fields) fd fields f law found in
      let (back, others) = only v x y set in
      (
        rw found (ap ok back),
        λ other ne. elim (Result-cases (find_field other fields)) [
          | inl (p, none_found) ↦ rw none_found refl
          | inr (g, found') ↦
              let (which, name') = find_field-All _ other fields g others found' in
              rw found' (elim which [
                | inl same_name ↦ absurd (ne (name' ∙ same_name ∙ sym name))
                | inr stays ↦ ap ok stays
              ])
        ],
      )

  pub clear_of-has_of :
      (fields : List (Field M)) (fd : FieldDescriptor) (x y : M)
      → All (SetsOnly fields) fields
      → All ClearsHas fields
      → clear_of fields fd x ≡ ok y
      → (has_of fields fd y ≡ ok false) × (get_of fields fd y ≡ new_field_of fields fd)
  unfolding clear_of has_of get_of new_field_of
  clear_of-has_of fields fd x y law clears e =
      let (f, found, set) = and_then-ok (find_field fd fields) (λ f. f.set f.new_field x) y e in
      let (only, name) = find_field-All (SetsOnly fields) fd fields f law found in
      let back = (only f.new_field x y set).0 in
      let (absent, _) = find_field-All ClearsHas fd fields f clears found in
      rw found (ap ok (absent y back), ap ok back)

  -- The fields of a part of the list that `Range` reports.
  pub range_of-All :
      (fields part : List (Field M)) (f : Bytes → Value → Bool) (x : M)
      → All (IsFound fields) part
      → All
          (λ p. (has_of fields (named p.0) x ≡ ok true) × (get_of fields (named p.0) x ≡ ok p.1))
          (range_of part f x)
  unfolding range_of has_of get_of
  range_of-All fields [] f x h = tt
  range_of-All fields (a ∷ more) f x h =
      let rest = range_of-All fields more f x h.1 in
      elim (Bool-cases (a.has x)) [
        | inr e ↦ rw e rest
        | inl e ↦
            rw e (rw (h.0, e) (refl, refl), stopped _ (f a.name (a.get x)) (range_of more f x) rest)
      ]
    where
      stopped :
          (P : Bytes × Value → Type 0) (b : Bool) (ps : List (Bytes × Value))
          → All P ps
          → All P (if b then ps else [])
      stopped P true ps k = k
      stopped P false ps k = tt

  pub set_string-ok :
      (put : Bytes → M → M) (v : Value) (x y : M)
      → set_string put v x ≡ ok y
      → (s : Bytes) × (v ≡ string_value s) × (put s x ≡ y)
  unfolding set_string
  set_string-ok put (string_value s) x y h = (s, refl, ok_injective _ _ h)
  set_string-ok put (enum_value n) x y h = absurd (cc)
  set_string-ok put (uint_value n) x y h = absurd (cc)

  pub set_enum-ok :
      (put : ℕ → M → M) (v : Value) (x y : M)
      → set_enum put v x ≡ ok y
      → (n : ℕ) × (v ≡ enum_value n) × (put n x ≡ y)
  unfolding set_enum
  set_enum-ok put (string_value s) x y h = absurd (cc)
  set_enum-ok put (enum_value n) x y h = (n, refl, ok_injective _ _ h)
  set_enum-ok put (uint_value n) x y h = absurd (cc)

  pub set_uint-ok :
      (put : ℕ → M → M) (v : Value) (x y : M)
      → set_uint put v x ≡ ok y
      → (n : ℕ) × (v ≡ uint_value n) × (put n x ≡ y)
  unfolding set_uint
  set_uint-ok put (string_value s) x y h = absurd (cc)
  set_uint-ok put (enum_value n) x y h = absurd (cc)
  set_uint-ok put (uint_value n) x y h = (n, refl, ok_injective _ _ h)
