-- ===== src/App/Export/Outcome.antt =====
-- What a preparation for height zero, and an export, have done when they succeed (app/export.go).
use shinzohub.Prelude.{
  ℕ, Bytes, none, some, List, [], ◌∷◌, ◌++◌, map, append_assoc, append-nil, ◌≡◌, ◌⊎◌, inl, inr,
  refl, sym, ap, subst, ◌∙◌, ok, err, Result-cases, resume-ok,
}
use shinzohub.App.Export.{
  Keepers, Validator, KeeperOp, Calls, Stop, panicked, fatal, Run, call, call_or, for_each, iterate,
  Visits, set_redelegation, set_unbonding, set_validator, set_signing_info, apply_validator_updates,
  assert_invariants,
}
use shinzohub.App.Export.Distribution.{reset_distribution}
use shinzohub.App.Export.Staking.{
  reset_redelegation, reset_unbonding, must_jail, reset_validator, reset_info, reset_redelegations,
  reset_unbondings, reset_validators, reset_infos, finish, check_allowed,
  prep_for_zero_height_genesis,
}

-- The calls that a list of items leads to, at one height.
abbrev pub calls_of : {A : Type 0} → ℕ → (A → KeeperOp) → List A → Calls
calls_of h g xs = map (λ x. record { height = h; op = g x }) xs

call_or-ok :
    (stop : Bytes → Stop) (k : Keepers) (h : ℕ) (op : KeeperOp) (t u : Calls)
    → call_or stop k h op t ≡ (ok tt, u)
    → u ≡ t ++ record { height = h; op = op } ∷ []
unfolding call_or call
call_or-ok stop k h op t u e = sym (ap (λ x. x.1) e)

-- A loop whose body, on success, makes one call for each item, which may depend on what it reads.
for_each-ok :
    {A B : Type 0} (f : A → Run (Unit {0})) (h : ℕ) (item : B → A) (g : B → KeeperOp)
    → ((x : A) (t u : Calls)
        → f x t ≡ (ok tt, u)
        → (y : B) × (item y ≡ x) × (u ≡ t ++ record { height = h; op = g y } ∷ []))
    → (xs : List A) (t u : Calls) → for_each f xs t ≡ (ok tt, u)
    → (ys : List B) × (map item ys ≡ xs) × (u ≡ t ++ calls_of h g ys)
unfolding for_each
for_each-ok f h item g each [] t u e = ([], refl, sym (ap (λ x. x.1) e) ∙ sym (append-nil t))
for_each-ok f h item g each (x ∷ xs) t u e =
    let (tt', s, first, rest) = resume-ok (f x t) _ tt u e in
    let (y, p, q) = each x t s first in
    let (ys, p', q') = for_each-ok f h item g each xs s u rest in
    (y ∷ ys, cc (p, p'), q' ∙ ap (λ l. l ++ calls_of h g ys) q ∙ append_assoc t _ _)

iterate-ok :
    {A : Type 0} (f : A → Run (Unit {0})) (v : Visits A) (t u : Calls)
    → iterate f v t ≡ (ok tt, u)
    → (v.1 ≡ none) × (for_each f v.0 t ≡ (ok tt, u))
unfolding iterate
iterate-ok f (xs, none) t u e = (refl, e)
iterate-ok f (xs, some x) t u e =
    let (a, s, first, rest) = resume-ok (for_each f xs t) _ tt u e in absurd (cc rest)

map_same : {A : Type 0} (xs : List A) → map (λ x. x) xs ≡ xs
map_same [] = refl
map_same (x ∷ xs) = ap (λ l. x ∷ l) (map_same xs)

-- The calls of an iteration that ends without an error.
writes :
    {A : Type 0} (k : Keepers) (h : ℕ) (g : A → KeeperOp) (v : Visits A) (t u : Calls)
    → iterate (λ x. call_or panicked k h (g x)) v t ≡ (ok tt, u)
    → u ≡ t ++ calls_of h g v.0
writes k h g v t u e =
    let (ys, p, q) =
      for_each-ok (λ x. call_or panicked k h (g x)) h (λ x. x) g
        (λ x s w e'. (x, refl, call_or-ok panicked k h (g x) s w e')) v.0 t u
        (iterate-ok (λ x. call_or panicked k h (g x)) v t u e).1 in
    q ∙ ap (λ l. t ++ calls_of h g l) (sym (map_same ys) ∙ p)

module _ (k : Keepers) (allowed : List Bytes) where
  abbrev last : ℕ
  last = k.last_block_height

  abbrev pub after_redelegations : Calls → Calls
  after_redelegations t =
      t ++ calls_of last (λ r. set_redelegation (reset_redelegation r)) (k.redelegations t).0

  abbrev pub after_unbondings : Calls → Calls
  after_unbondings t =
      t ++ calls_of last (λ u. set_unbonding (reset_unbonding u)) (k.unbondings t).0

  -- The validators with their addresses, as the keeper returned them.
  abbrev pub after_validators : List (Bytes × Validator) → Calls → Calls
  after_validators vs t =
      t ++ calls_of last (λ p. set_validator p.0 (reset_validator (must_jail k allowed p.0) p.1)) vs

  abbrev pub after_updates : Calls → Calls
  after_updates t = t ++ record { height = last; op = apply_validator_updates } ∷ []

  abbrev pub after_infos : Calls → Calls
  after_infos t =
      t ++ calls_of last (λ i. set_signing_info i.0 (reset_info i.1)) (k.signing_infos t).0

  -- The staking and slashing calls of a preparation that succeeded, from those made before to those
  -- made in all.
  pub record IsPrepared (before : Calls) (all : Calls) : Type 0 where
    pub validators : List (Bytes × Validator)
    pub visited :
        map (λ p. p.0) validators
        ≡ k.validator_addresses (after_unbondings (after_redelegations before))
    pub ending :
        let t = after_validators validators (after_unbondings (after_redelegations before)) in
        ((e : Bytes) × (k.close_iterator t ≡ err e) × (all ≡ t))
        ⊎ ((k.close_iterator t ≡ ok tt) × (all ≡ after_infos (after_updates t)))

  reset_validators-ok :
      (t u : Calls)
      → reset_validators k last allowed t ≡ (ok tt, u)
      → (vs : List (Bytes × Validator)) × (map (λ p. p.0) vs ≡ k.validator_addresses t)
        × (u ≡ after_validators vs t)
  unfolding reset_validators
  reset_validators-ok t u e =
      for_each-ok _ last (λ p. p.0)
        (λ p. set_validator p.0 (reset_validator (must_jail k allowed p.0) p.1))
        (λ addr s w e'. elim (Result-cases (k.get_validator s addr)) [
          | inl (x, r) ↦ absurd (cc (rw r at e'))
          | inr (v, r) ↦ ((addr, v), refl, call_or-ok panicked k last _ s w (rw r at e'))
        ])
        (k.validator_addresses t) t u e

  finish-ok :
      (t u : Calls)
      → finish k last t ≡ (ok tt, u)
      → ((e : Bytes) × (k.close_iterator t ≡ err e) × (u ≡ t))
        ⊎ ((k.close_iterator t ≡ ok tt) × (u ≡ after_infos (after_updates t)))
  unfolding finish reset_infos
  finish-ok t u e = elim (Result-cases (k.close_iterator t)) [
    | inl (x, r) ↦ inl (x, r, sym (ap (λ y. y.1) (rw r at e)))
    | inr (a, r) ↦ inr (
      r,
      let (b, s, first, rest) =
            resume-ok (call_or fatal k last apply_validator_updates t) _ tt u (rw r at e) in
          let q = call_or-ok fatal k last apply_validator_updates t s first in
          writes k last (λ i. set_signing_info i.0 (reset_info i.1)) (k.signing_infos s) s u rest
          ∙ ap after_infos q,
    )
  ]

  redelegations-ok :
      (t u : Calls) → reset_redelegations k last t ≡ (ok tt, u) → u ≡ after_redelegations t
  unfolding reset_redelegations
  redelegations-ok t u e =
      writes k last (λ r. set_redelegation (reset_redelegation r)) (k.redelegations t) t u e

  unbondings-ok : (t u : Calls) → reset_unbondings k last t ≡ (ok tt, u) → u ≡ after_unbondings t
  unfolding reset_unbondings
  unbondings-ok t u e =
      writes k last (λ r. set_unbonding (reset_unbonding r)) (k.unbondings t) t u e

-- A preparation for height zero that succeeds has, after the calls in the distribution module, written
-- back in their order every redelegation and every unbonding delegation that the store had, with their
-- heights reset, and every validator of the store; and then it has either had the validator updates
-- applied and written back every signing info with its height reset, or, if the iterator over the
-- validators failed to close, made no further call.
pub prep_for_zero_height_genesis-IsPrepared :
    (k : Keepers) (allowed : List Bytes) (t : Calls)
    → prep_for_zero_height_genesis k allowed [] ≡ (ok tt, t)
    → (before : Calls) × ((s : Calls) × (reset_distribution k s ≡ (ok tt, before)))
      × IsPrepared k allowed before t
unfolding prep_for_zero_height_genesis
prep_for_zero_height_genesis-IsPrepared k allowed t e =
    let h = k.last_block_height in
    let (x₁, s₁, e₁, r₁) = resume-ok (call_or panicked k h assert_invariants []) _ tt t e in
    let (x₂, s₂, e₂, r₂) = resume-ok (check_allowed k allowed s₁) _ tt t r₁ in
    let (x₃, s₃, e₃, r₃) = resume-ok (reset_distribution k s₂) _ tt t r₂ in
    let (x₄, s₄, e₄, r₄) = resume-ok (reset_redelegations k h s₃) _ tt t r₃ in
    let (x₅, s₅, e₅, r₅) = resume-ok (reset_unbondings k h s₄) _ tt t r₄ in
    let (x₆, s₆, e₆, r₆) = resume-ok (reset_validators k h allowed s₅) _ tt t r₅ in
    let q₄ = redelegations-ok k allowed s₃ s₄ e₄ in
    let q₅ = unbondings-ok k allowed s₄ s₅ e₅ ∙ ap (after_unbondings k allowed) q₄ in
    let (vs, visited, q₆) = reset_validators-ok k allowed s₅ s₆ e₆ in
    let q₇ = q₆ ∙ ap (after_validators k allowed vs) q₅ in
    (
      s₃,
      (s₂, e₃),
      record {
        validators = vs;
        visited = visited ∙ ap k.validator_addresses q₅;
        ending =
            subst
              (λ w.
                ((x : Bytes) × (k.close_iterator w ≡ err x) × (t ≡ w))
                ⊎ ((k.close_iterator w ≡ ok tt)
                    × (t ≡ after_infos k allowed (after_updates k allowed w))))
              q₇ (finish-ok k allowed s₆ t r₆);
      },
    )
