-- ===== src/Sourcehub/Messages/Objects.antt =====
-- MsgRegisterShinzoObjects.ValidateBasic: which lists of resources pass, and what becomes of them.
use shinzohub.Prelude.{
  contains, ℕ, suc, Bytes, false, List, [], ◌∷◌, ◌≡◌, ◌≢◌, ◌↔◌, inl, inr, refl, sym, ◌∙◌, ap, subst,
  arith, map, is_empty, Bool-cases, All, ok, Result-cases, eq→same, ne→same, length, ◌==◌,
}
use shinzohub.Sourcehub.Messages.{
  Strings, MsgRegisterShinzoObjects, normalize, validate_resources,
  validate_register_shinzo_objects,
}

-- No text stands twice in the list.
abbrev pub Distinct : List Bytes → Type 0
Distinct [] = Unit {0}
Distinct (x ∷ xs) = All (λ y. x ≢ y) xs × Distinct xs

abbrev pub Unseen : List Bytes → List Bytes → Type 0
Unseen seen xs = All (λ y. contains y seen ≡ false) xs

abbrev pub NonEmpty : List Bytes → Type 0
NonEmpty xs = All (λ y. y ≢ []) xs

Unseen-cons :
    (x : Bytes) (seen xs : List Bytes) → Unseen (x ∷ seen) xs → Unseen seen xs × All (λ y. x ≢ y) xs
unfolding contains
Unseen-cons x seen [] h = (tt, tt)
Unseen-cons x seen (y ∷ xs) h =
    let ih = Unseen-cons x seen xs h.1 in
    ((ground arith, ih.0), ((λ e. absurd (ground (arith, eq→same y x (sym e)))), ih.1))

cons-Unseen :
    (x : Bytes) (seen xs : List Bytes) → Unseen seen xs → All (λ y. x ≢ y) xs → Unseen (x ∷ seen) xs
unfolding contains
cons-Unseen x seen [] h k = tt
cons-Unseen x seen (y ∷ xs) h k =
    (rw (ne→same y x (λ e. k.0 (sym e))) (h.0), cons-Unseen x seen xs h.1 k.1)

pub not_empty : (s : Bytes) → s ≢ [] → is_empty s ≡ false
not_empty [] ne = absurd (ne refl)
not_empty (x ∷ s) ne = refl

Unseen-nil : (xs : List Bytes) → Unseen [] xs
unfolding contains
Unseen-nil [] = tt
Unseen-nil (x ∷ xs) = (refl, Unseen-nil xs)

length-ne : (rs : List Bytes) → rs ≢ [] → (length rs == 0) ≡ false
length-ne [] ne = absurd (ne refl)
length-ne (x ∷ rs) ne = ground arith

-- Normalising a name twice is normalising it once.
abbrev pub Settles : Strings → Type 0
Settles lib = (r : Bytes) → normalize lib (normalize lib r) ≡ normalize lib r

module _ (lib : Strings) where
  -- What the loop has checked of its result.
  abbrev pub IsChecked : List Bytes → List Bytes → List Bytes → Type 0
  IsChecked seen rs out =
      (out ≡ map (normalize lib) rs) × NonEmpty out × Distinct out × Unseen seen out

  validate_resources_sound :
      (i : ℕ) (seen rs out : List Bytes)
      → validate_resources lib i seen rs ≡ ok out
      → IsChecked seen rs out
  unfolding validate_resources
  validate_resources_sound i seen [] out h = let e : out ≡ [] = cc in rw e (refl, tt, tt, tt)
  validate_resources_sound i seen (r ∷ rs) out h = elim (Bool-cases (is_empty (normalize lib r))) [
    | inl e ↦ absurd (ground arith)
    | inr e ↦ elim (Bool-cases (contains (normalize lib r) seen)) [
      | inl f ↦ absurd (ground arith)
      | inr f ↦ elim (Result-cases (validate_resources lib (suc i) (normalize lib r ∷ seen) rs)) [
        | inl (x, q) ↦ absurd (ground arith)
        | inr (rest, q) ↦
            let ih = validate_resources_sound (suc i) (normalize lib r ∷ seen) rs rest q in
            let shape : out ≡ normalize lib r ∷ rest = ground arith in
            let split = Unseen-cons (normalize lib r) seen rest ih.3 in
            rw shape (
              ap (λ xs. normalize lib r ∷ xs) ih.0,
              (λ z. absurd (ground arith), ih.1),
              (split.1, ih.2),
              (f, split.0),
            )
      ]
    ]
  ]

  validate_resources_complete :
      (i : ℕ) (seen rs : List Bytes)
      → NonEmpty (map (normalize lib) rs)
      → Distinct (map (normalize lib) rs)
      → Unseen seen (map (normalize lib) rs)
      → validate_resources lib i seen rs ≡ ok (map (normalize lib) rs)
  unfolding validate_resources
  validate_resources_complete i seen [] ne di un = refl
  validate_resources_complete i seen (r ∷ rs) ne di un = rw (
    not_empty (normalize lib r) ne.0,
    un.0,
    validate_resources_complete (suc i) (normalize lib r ∷ seen) rs ne.1 di.1
        (cons-Unseen (normalize lib r) seen (map (normalize lib) rs) un.1 di.0),
  )

  -- The names that the check accepts: some, none empty and none twice once they are normalised.
  pub record IsAcceptable (rs : List Bytes) : Type 0 where
    pub some_resource : rs ≢ []
    pub non_empty : NonEmpty (map (normalize lib) rs)
    pub distinct : Distinct (map (normalize lib) rs)

  accepted→acceptable :
      (m n : MsgRegisterShinzoObjects)
      → validate_register_shinzo_objects lib m ≡ ok n
      → IsAcceptable m.resources × (n ≡ record m { resources = map (normalize lib) m.resources })
  unfolding validate_register_shinzo_objects
  accepted→acceptable m n h = elim (Result-cases (validate_resources lib 0 [] m.resources)) [
    | inl (e, q) ↦ absurd (ground arith)
    | inr (out, q) ↦
        let checked = validate_resources_sound 0 [] m.resources out q in
        (
          record {
            some_resource = λ z. absurd (ground arith);
            non_empty = subst NonEmpty checked.0 checked.1;
            distinct = subst Distinct checked.0 checked.2;
          },
          ground (arith, checked.0),
        )
  ]

  acceptable→accepted :
      (m n : MsgRegisterShinzoObjects)
      → IsAcceptable m.resources × (n ≡ record m { resources = map (normalize lib) m.resources })
      → validate_register_shinzo_objects lib m ≡ ok n
  unfolding validate_register_shinzo_objects
  acceptable→accepted m n (a, e) = rw (
    length-ne m.resources a.some_resource,
    validate_resources_complete 0 [] m.resources a.non_empty a.distinct
        (Unseen-nil (map (normalize lib) m.resources)),
    e,
  )

  -- `ValidateBasic` accepts exactly the messages with at least one resource whose normalised names are not
  -- empty and differ from one another, and it replaces the names by the normalised ones.
  pub validate_register_shinzo_objects_iff :
      (m n : MsgRegisterShinzoObjects)
      → (validate_register_shinzo_objects lib m ≡ ok n) ↔ (
          IsAcceptable m.resources × (n ≡ record m { resources = map (normalize lib) m.resources }))
  validate_register_shinzo_objects_iff m n = (accepted→acceptable m n, acceptable→accepted m n)

  map-normalize :
      Settles lib
      → (rs : List Bytes) → map (normalize lib) (map (normalize lib) rs) ≡ map (normalize lib) rs
  map-normalize settles [] = refl
  map-normalize settles (r ∷ rs) = cc (settles r, map-normalize settles rs)

  map-ne : (rs : List Bytes) → rs ≢ [] → map (normalize lib) rs ≢ []
  map-ne [] ne = λ e. ne refl
  map-ne (r ∷ rs) ne = λ e. cc

  -- Checking an accepted message again accepts it and changes nothing more, if normalising a name twice
  -- is normalising it once.
  pub validate_twice :
      (m n : MsgRegisterShinzoObjects)
      → Settles lib
      → validate_register_shinzo_objects lib m ≡ ok n
      → validate_register_shinzo_objects lib n ≡ ok n
  validate_twice m n settles h =
      let (a, e) = accepted→acceptable m n h in
      let q : n.resources ≡ map (normalize lib) m.resources = ap (λ x. x.resources) e in
      let fixed : map (normalize lib) n.resources ≡ map (normalize lib) m.resources =
        ap (map (normalize lib)) q ∙ map-normalize settles m.resources in
      acceptable→accepted n n (
        record {
          some_resource = λ z. map-ne m.resources a.some_resource (sym q ∙ z);
          non_empty = subst NonEmpty (sym fixed) a.non_empty;
          distinct = subst Distinct (sym fixed) a.distinct;
        },
        ap (λ rs. record n { resources = rs }) (q ∙ sym fixed),
      )
