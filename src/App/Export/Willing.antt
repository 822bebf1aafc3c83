-- ===== src/App/Export/Willing.antt =====
-- Keepers with which `prepForZeroHeightGenesis` of app/export.go succeeds.
use shinzohub.Prelude.{
  All, All-tabulate, ℕ, Bytes, none, some, List, [], ◌∷◌, ◌≡◌, refl, ap, ◌∙◌, Result, ok, resume,
  ◌>>=◌, gets, map_err,
}
use shinzohub.Sourcehub.State.{LibError}
use shinzohub.App.Export.{
  Keepers, KeeperOp, Calls, Stop, Delegation, Visits, Run, panicked, call, call_or, must, for_each,
  iterate, delete_slash_events, delete_historical_rewards, withdraw_commission,
  after_validator_created, withdraw_rewards, before_delegation_created, after_delegation_modified,
  set_fee_pool, assert_invariants, apply_validator_updates, Redelegation, set_redelegation,
  Unbonding, set_unbonding, Validator, set_validator, SigningInfo, set_signing_info, Coins,
}
use shinzohub.App.Export.Distribution.{
  withdraw_commissions, withdraw_all_rewards, recreate_validator, recreate_delegations,
  reset_distribution,
}

abbrev pub IsOk : {A : Type 0} → Result LibError A → Type 0
IsOk {A} r = (a : A) × (r ≡ ok a)

-- The call is accepted whenever it comes.
abbrev pub Accepts : Keepers → KeeperOp → Type 0
Accepts k op = (t : Calls) (h : ℕ) → k.accept t (record { height = h; op = op }) ≡ ok tt

-- A delegation whose addresses can be read, whose rewards can be withdrawn and whose hooks succeed.
pub record IsDelegation (k : Keepers) (d : Delegation) : Type 0 where
  pub val : Bytes
  pub del : Bytes
  pub val_known : k.val_from_bech32 d.validator_address ≡ ok val
  pub del_known : k.acc_from_bech32 d.delegator_address ≡ ok del
  pub withdraws : Accepts k (withdraw_rewards del val)
  pub creates : Accepts k (before_delegation_created del val)
  pub modifies : Accepts k (after_delegation_modified del val)

-- An operator whose address can be read, who has rewards and whose hook succeeds.
pub record IsOperator (k : Keepers) (o : Bytes) : Type 0 where
  pub val : Bytes
  pub val_known : k.operator_bytes o ≡ ok val
  pub has_rewards : (t : Calls) → IsOk (k.outstanding_rewards t val)
  pub creates : Accepts k (after_validator_created val)

-- Keepers whose invariants hold, which store what they are given, finish their iterations and find what
-- they are asked for: the delegations and operators that they list are in order, and every validator
-- that is visited is found. The iterator over the validators may fail to close.
pub record IsWilling (k : Keepers) : Type 0 where
  pub invariants : Accepts k assert_invariants
  pub updates : Accepts k apply_validator_updates
  pub sets_pool : (coins : Coins) → Accepts k (set_fee_pool coins)
  pub sets_redelegation : (red : Redelegation) → Accepts k (set_redelegation red)
  pub sets_unbonding : (ubd : Unbonding) → Accepts k (set_unbonding ubd)
  pub sets_validator : (addr : Bytes) (v : Validator) → Accepts k (set_validator addr v)
  pub sets_info : (addr : Bytes) (i : SigningInfo) → Accepts k (set_signing_info addr i)
  pub operators_end : (t : Calls) → (k.operators t).1 ≡ none
  pub operators_known : (t : Calls) → All (IsOperator k) (k.operators t).0
  pub has_delegations :
      (t : Calls) → (ds : List Delegation) × (k.delegations t ≡ ok ds) × All (IsDelegation k) ds
  pub has_pool : (t : Calls) → IsOk (k.community_pool t)
  pub redelegations_end : (t : Calls) → (k.redelegations t).1 ≡ none
  pub unbondings_end : (t : Calls) → (k.unbondings t).1 ≡ none
  pub has_validator :
      (t s : Calls) → All (λ a. IsOk (k.get_validator s a)) (k.validator_addresses t)
  pub infos_end : (t : Calls) → (k.signing_infos t).1 ≡ none

abbrev pub SucceedsAt : {A : Type 0} → Run A → Calls → Type 0
SucceedsAt {A} m t = (a : A) × (u : Calls) × (m t ≡ (ok a, u))

abbrev pub Succeeds : {A : Type 0} → Run A → Type 0
Succeeds m = (t : Calls) → SucceedsAt m t

pub bind-Succeeds :
    {A B : Type 0} (m : Run A) (f : A → Run B)
    → Succeeds m
    → ((a : A) → Succeeds (f a))
    → Succeeds (m >>= f)
bind-Succeeds m f h g t =
    let (a, u, p) = h t in let (b, v, q) = g a u in (b, v, ap (λ x. resume x f) p ∙ q)

pub must-Succeeds : {A : Type 0} (r : Result LibError A) → IsOk r → Succeeds (must r)
must-Succeeds r (a, p) t = (a, t, ap (λ x. (map_err panicked x, t)) p)

pub for_each-Succeeds :
    {A : Type 0} (P : A → Type 0) (f : A → Run (Unit {0})) (xs : List A)
    → All P xs
    → ((x : A) → P x → Succeeds (f x))
    → Succeeds (for_each f xs)
unfolding for_each
for_each-Succeeds P f [] all h = λ t. (tt, t, refl)
for_each-Succeeds P f (x ∷ xs) all h =
    bind-Succeeds (f x) (λ u. for_each f xs) (h x all.0) (λ u. for_each-Succeeds P f xs all.1 h)

pub iterate-Succeeds :
    {A : Type 0} (P : A → Type 0) (f : A → Run (Unit {0})) (v : Visits A)
    → v.1 ≡ none
    → All P v.0
    → ((x : A) → P x → Succeeds (f x))
    → Succeeds (iterate f v)
unfolding iterate
iterate-Succeeds P f (xs, none) e all h = for_each-Succeeds P f xs all h
iterate-Succeeds P f (xs, some x) e all h = absurd (cc)

-- A visit that succeeds on everything.
pub iterate_any-Succeeds :
    {A : Type 0} (f : A → Run (Unit {0})) (v : Visits A)
    → v.1 ≡ none
    → ((x : A) → Succeeds (f x))
    → Succeeds (iterate f v)
iterate_any-Succeeds f v e h =
    iterate-Succeeds (λ x. Unit) f v e (All-tabulate (λ x. Unit) v.0 (λ x. tt)) (λ x u. h x)

call-Succeeds : (k : Keepers) (h : ℕ) (op : KeeperOp) → Succeeds (call k h op)
unfolding call
call-Succeeds k h op t = (_, _, refl)

module _ (k : Keepers) (w : IsWilling k) where
  pub call_or-Succeeds :
      (stop : Bytes → Stop) (h : ℕ) (op : KeeperOp) → Accepts k op → Succeeds (call_or stop k h op)
  unfolding call_or call
  call_or-Succeeds stop h op accepts t =
      (tt, (call k h op t).1, ap (λ x. (map_err stop x, (call k h op t).1)) (accepts t h))

  -- A read of what the keeper has, and then what follows.
  pub read-Succeeds :
      {A B : Type 0} (r : Calls → Result LibError A) (f : A → Run B)
      → ((t : Calls) → IsOk (r t))
      → ((a : A) → Succeeds (f a))
      → Succeeds ((gets r >>= must) >>= f)
  read-Succeeds r f h g = bind-Succeeds (gets r >>= must) f (λ t. must-Succeeds (r t) (h t) t) g

  -- A read of what is known to have `P`.
  read_known-Succeeds :
      {A B : Type 0} (P : A → Type 0) (r : Calls → Result LibError A) (f : A → Run B)
      → ((t : Calls) → (a : A) × (r t ≡ ok a) × P a)
      → ((a : A) → P a → Succeeds (f a))
      → Succeeds ((gets r >>= must) >>= f)
  read_known-Succeeds P r f h g t =
      let (a, e, p) = h t in
      let (b, u, q) = g a p t in (b, u, ap (λ x. resume (map_err panicked x, t) f) e ∙ q)

  addresses-Succeed :
      {B : Type 0} (d : Delegation) (f : Bytes → Bytes → Run B) (known : IsDelegation k d)
      → Succeeds (f known.val known.del)
      → Succeeds (
          must (k.val_from_bech32 d.validator_address) >>= λ val.
          must (k.acc_from_bech32 d.delegator_address) >>= λ del. f val del)
  addresses-Succeed d f known h = rw (known.val_known, known.del_known) h

  withdraw_commissions-Succeeds : Succeeds (withdraw_commissions k)
  unfolding withdraw_commissions
  withdraw_commissions-Succeeds t =
      iterate-Succeeds (IsOperator k) _ (k.operators t) (w.operators_end t) (w.operators_known t)
        (λ o known.
          bind-Succeeds (must (k.operator_bytes o)) _ (must-Succeeds _ (known.val, known.val_known))
            (λ val.
              bind-Succeeds (call k 0 (withdraw_commission val)) _
                (call-Succeeds k 0 (withdraw_commission val)) (λ r s. (tt, s, refl))))
        t

  recreate_validator-Succeeds : (o : Bytes) → IsOperator k o → Succeeds (recreate_validator k o)
  unfolding recreate_validator
  recreate_validator-Succeeds o known = rw known.val_known (
      read-Succeeds (λ t. k.outstanding_rewards t known.val) _ known.has_rewards
        (λ scraps. read-Succeeds k.community_pool _ w.has_pool (λ pool.
          bind-Succeeds (call_or panicked k 0 (set_fee_pool (k.add_coins pool scraps))) _
            (call_or-Succeeds panicked 0 _ (w.sets_pool (k.add_coins pool scraps)))
            (λ x. call_or-Succeeds panicked 0 _ known.creates))))

  pub reset_distribution-Succeeds : Succeeds (reset_distribution k)
  unfolding reset_distribution withdraw_all_rewards recreate_delegations
  reset_distribution-Succeeds =
      bind-Succeeds (withdraw_commissions k) _ withdraw_commissions-Succeeds (λ x.
        read_known-Succeeds (All (IsDelegation k)) k.delegations _ w.has_delegations (λ dels all.
          bind-Succeeds (withdraw_all_rewards k dels) _
            (for_each-Succeeds (IsDelegation k) _ dels all (λ d known.
              addresses-Succeed d _ known (call_or-Succeeds panicked 0 _ known.withdraws)))
            (λ y.
              bind-Succeeds (call k 0 delete_slash_events) _ (call-Succeeds k 0 delete_slash_events)
                (λ r₁.
                  bind-Succeeds (call k 0 delete_historical_rewards) _
                    (call-Succeeds k 0 delete_historical_rewards)
                    (λ r₂.
                      bind-Succeeds (gets k.operators >>= iterate (recreate_validator k)) _
                        (λ t.
                          iterate-Succeeds (IsOperator k) (recreate_validator k) (k.operators t)
                            (w.operators_end t) (w.operators_known t) recreate_validator-Succeeds t)
                        (λ z. for_each-Succeeds (IsDelegation k) _ dels all (λ d known.
                          addresses-Succeed d _ known (
                            bind-Succeeds
                              (call_or panicked k 0 (before_delegation_created known.del known.val))
                              _ (call_or-Succeeds panicked 0 _ known.creates)
                              (λ q. call_or-Succeeds panicked 0 _ known.modifies)))))))))
