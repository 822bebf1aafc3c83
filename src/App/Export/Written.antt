-- ===== src/App/Export/Written.antt =====
-- Every call that `prepForZeroHeightGenesis` of app/export.go makes resets heights.
use shinzohub.Prelude.{
  ℕ, Bytes, true, List, [], ◌∷◌, map, ◌≡◌, ◌↔◌, inl, inr, refl, ok, Result-cases, All, Keeps,
  Keeps-bind, arith, contains, contains_iff, Bool-cases, lift, map_err, subst,
}
use shinzohub.App.Export.{
  Keepers, Entry, Validator, Calls, panicked, fatal, call_or, set_redelegation, set_unbonding,
  set_validator, set_signing_info, apply_validator_updates, assert_invariants,
}
use shinzohub.App.Export.Resets.{
  AllReset, IsForbidden, IsWritten, then-Keeps, for_each-Keeps, iterate-Keeps, call_or-AllReset,
}
use shinzohub.App.Export.Keeping.{reset_distribution-AllReset}
use shinzohub.App.Export.Distribution.{reset_distribution}
use shinzohub.App.Export.Staking.{
  reset_entry, reset_redelegation, reset_unbonding, must_jail, reset_validator, reset_info,
  reset_redelegations, reset_unbondings, reset_validators, reset_infos, finish, check_allowed,
  prep_for_zero_height_genesis,
}

reset_entries : (es : List Entry) → All (λ e. e.creation_height ≡ 0) (map reset_entry es)
reset_entries [] = tt
reset_entries (e ∷ es) = (refl, reset_entries es)

must_jail_iff :
    (k : Keepers) (allowed : List Bytes) (addr : Bytes)
    → (must_jail k allowed addr ≡ true) ↔ IsForbidden k allowed addr
unfolding must_jail
must_jail_iff k [] addr = (λ p. absurd (cc), λ f. absurd (f.0 refl))
must_jail_iff k (a ∷ allowed) addr =
    let c = contains_iff (k.val_to_bech32 addr) (a ∷ allowed) in
    (
      λ p. (λ q. cc, λ m. absurd (cc (c.1 m, p))),
      λ f. elim (Bool-cases (contains (k.val_to_bech32 addr) (a ∷ allowed))) [
        | inl e ↦ absurd (f.1 (c.0 e))
        | inr e ↦ rw e
      ],
    )

reset_validator-IsWritten :
    (k : Keepers) (allowed : List Bytes) (addr : Bytes) (t : Calls) (v : Validator)
    → k.get_validator t addr ≡ ok v
    → IsWritten k allowed addr (reset_validator (must_jail k allowed addr) v)
unfolding reset_validator
reset_validator-IsWritten k allowed addr t v read = record {
  read_at = t;
  before = v;
  read = read;
  height = refl;
  jailed = (
    λ p. elim (Bool-cases (must_jail k allowed addr)) [
      | inl e ↦ inr ((must_jail_iff k allowed addr).0 e)
      | inr e ↦ inl (ground (arith, e, p))
    ],
    λ q. elim q [ inl e ↦ ground (arith, e) | inr f ↦ rw ((must_jail_iff k allowed addr).1 f) ],
  );
  others = refl;
}

module _ (k : Keepers) (allowed : List Bytes) where
  abbrev last : ℕ
  last = k.last_block_height

  reset_redelegations-AllReset : Keeps (AllReset k allowed) (reset_redelegations k last)
  unfolding reset_redelegations
  reset_redelegations-AllReset t p =
      iterate-Keeps (AllReset k allowed) _ (k.redelegations t)
        (λ red.
          call_or-AllReset k allowed panicked last (set_redelegation (reset_redelegation red))
            (refl, reset_entries red.entries))
        t p

  reset_unbondings-AllReset : Keeps (AllReset k allowed) (reset_unbondings k last)
  unfolding reset_unbondings
  reset_unbondings-AllReset t p =
      iterate-Keeps (AllReset k allowed) _ (k.unbondings t)
        (λ ubd.
          call_or-AllReset k allowed panicked last (set_unbonding (reset_unbonding ubd))
            (refl, reset_entries ubd.entries))
        t p

  reset_validators-AllReset : Keeps (AllReset k allowed) (reset_validators k last allowed)
  unfolding reset_validators
  reset_validators-AllReset t p =
      for_each-Keeps (AllReset k allowed) _ (k.validator_addresses t)
        (λ addr s q. elim (Result-cases (k.get_validator s addr)) [
          | inl (e, r) ↦ subst (AllReset k allowed) (rw r) q
          | inr (v, r) ↦ subst (AllReset k allowed) (rw r) (
              call_or-AllReset k allowed panicked last
                (set_validator addr (reset_validator (must_jail k allowed addr) v))
                (refl, reset_validator-IsWritten k allowed addr s v r) s q)
        ])
        t p

  reset_infos-AllReset : Keeps (AllReset k allowed) (reset_infos k last)
  unfolding reset_infos
  reset_infos-AllReset t p =
      iterate-Keeps (AllReset k allowed) _ (k.signing_infos t)
        (λ i.
          call_or-AllReset k allowed panicked last (set_signing_info i.0 (reset_info i.1))
            (refl, refl))
        t p

  finish-AllReset : Keeps (AllReset k allowed) (finish k last)
  unfolding finish
  finish-AllReset t p = elim (Result-cases (k.close_iterator t)) [
    | inl (e, r) ↦ subst (AllReset k allowed) (rw r) p
    | inr (u, r) ↦ subst (AllReset k allowed) (rw r) (
        Keeps-bind (AllReset k allowed) (call_or fatal k last apply_validator_updates)
          (λ u. reset_infos k last)
          (call_or-AllReset k allowed fatal last apply_validator_updates refl)
          (λ x. reset_infos-AllReset) t p)
  ]

  check_allowed-AllReset : (addrs : List Bytes) → Keeps (AllReset k allowed) (check_allowed k addrs)
  unfolding check_allowed
  check_allowed-AllReset addrs = for_each-Keeps (AllReset k allowed) _ addrs (λ a.
      then-Keeps k allowed (lift (map_err fatal (k.val_from_bech32 a))) _ (λ t. refl) (λ x s q. q))

-- Whatever the keepers answer, and whether the preparation
-- for height zero succeeds or stops on the way, each call that it makes in the staking and slashing
-- modules runs at the last block's height and writes creation, unbonding and start heights of 0, and
-- each call in the distribution module runs at height 0. A validator is written as the keeper had it,
-- but for its height and but that it is jailed, which it is exactly if it was or if there is a list of
-- allowed addresses without its own.
pub prep_for_zero_height_genesis-AllReset :
    (k : Keepers) (allowed : List Bytes)
    → AllReset k allowed (prep_for_zero_height_genesis k allowed []).1
unfolding prep_for_zero_height_genesis
prep_for_zero_height_genesis-AllReset k allowed =
    let P = AllReset k allowed in
    Keeps-bind P (call_or panicked k k.last_block_height assert_invariants) _
      (call_or-AllReset k allowed panicked k.last_block_height assert_invariants refl)
      (λ x₁.
        Keeps-bind P (check_allowed k allowed) _ (check_allowed-AllReset k allowed allowed) (λ x₂.
          Keeps-bind P (reset_distribution k) _ (reset_distribution-AllReset k allowed) (λ x₃.
            Keeps-bind P (reset_redelegations k k.last_block_height) _
              (reset_redelegations-AllReset k allowed)
              (λ x₄.
                Keeps-bind P (reset_unbondings k k.last_block_height) _
                  (reset_unbondings-AllReset k allowed)
                  (λ x₅.
                    Keeps-bind P (reset_validators k k.last_block_height allowed) _
                      (reset_validators-AllReset k allowed) (λ x₆. finish-AllReset k allowed))))))
      [] tt
