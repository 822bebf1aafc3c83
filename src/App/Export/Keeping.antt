-- ===== src/App/Export/Keeping.antt =====
-- Every part of `prepForZeroHeightGenesis` makes only calls that reset heights.
use shinzohub.Prelude.{Bytes, List, refl, Keeps, Keeps-bind, ◌>>=◌, gets}
use shinzohub.App.Export.{
  Keepers, Delegation, panicked, Run, call, must, iterate, withdraw_commission, set_fee_pool,
  after_validator_created, withdraw_rewards, before_delegation_created, after_delegation_modified,
  delete_slash_events, delete_historical_rewards,
}
use shinzohub.App.Export.Distribution.{
  withdraw_commissions, withdraw_all_rewards, recreate_validator, recreate_delegations,
  reset_distribution,
}
use shinzohub.App.Export.Resets.{
  AllReset, then-Keeps, must-Keeps, for_each-Keeps, iterate-Keeps, call-AllReset, call_or-AllReset,
}

module _ (k : Keepers) (allowed : List Bytes) where
  abbrev K : {A : Type 0} → Run A → Type 0
  K m = Keeps (AllReset k allowed) m

  withdraw_commissions-AllReset : K (withdraw_commissions k)
  unfolding withdraw_commissions
  withdraw_commissions-AllReset t p =
      iterate-Keeps (AllReset k allowed) _ (k.operators t)
        (λ o. must-Keeps k allowed (k.operator_bytes o) _ (λ val.
          Keeps-bind (AllReset k allowed) _ _
            (call-AllReset k allowed 0 (withdraw_commission val) refl) (λ x s q. q)))
        t p

  withdraw_all_rewards-AllReset : (dels : List Delegation) → K (withdraw_all_rewards k dels)
  unfolding withdraw_all_rewards
  withdraw_all_rewards-AllReset dels = for_each-Keeps (AllReset k allowed) _ dels (λ d.
      must-Keeps k allowed (k.val_from_bech32 d.validator_address) _ (λ val.
        must-Keeps k allowed (k.acc_from_bech32 d.delegator_address) _
          (λ del. call_or-AllReset k allowed panicked 0 (withdraw_rewards del val) refl)))

  recreate_validator-AllReset : (o : Bytes) → K (recreate_validator k o)
  unfolding recreate_validator
  recreate_validator-AllReset o = must-Keeps k allowed (k.operator_bytes o) _ (λ val.
      then-Keeps k allowed (gets (λ t. k.outstanding_rewards t val) >>= must) _ (λ t. refl)
        (λ scraps.
          then-Keeps k allowed (gets k.community_pool >>= must) _ (λ t. refl)
            (λ pool.
              Keeps-bind (AllReset k allowed) _ _
                (call_or-AllReset k allowed panicked 0 (set_fee_pool (k.add_coins pool scraps))
                  refl)
                (λ x. call_or-AllReset k allowed panicked 0 (after_validator_created val) refl))))

  recreate_delegations-AllReset : (dels : List Delegation) → K (recreate_delegations k dels)
  unfolding recreate_delegations
  recreate_delegations-AllReset dels = for_each-Keeps (AllReset k allowed) _ dels (λ d.
      must-Keeps k allowed (k.val_from_bech32 d.validator_address) _ (λ val.
        must-Keeps k allowed (k.acc_from_bech32 d.delegator_address) _ (λ del.
          Keeps-bind (AllReset k allowed) _ _
            (call_or-AllReset k allowed panicked 0 (before_delegation_created del val) refl)
            (λ x. call_or-AllReset k allowed panicked 0 (after_delegation_modified del val) refl))))

  pub reset_distribution-AllReset : K (reset_distribution k)
  unfolding reset_distribution
  reset_distribution-AllReset =
      Keeps-bind (AllReset k allowed) (withdraw_commissions k) _ withdraw_commissions-AllReset (λ x.
        then-Keeps k allowed (gets k.delegations >>= must) _ (λ t. refl)
          (λ dels.
            Keeps-bind (AllReset k allowed) (withdraw_all_rewards k dels) _
              (withdraw_all_rewards-AllReset dels)
              (λ y.
                Keeps-bind (AllReset k allowed) (call k 0 delete_slash_events) _
                  (call-AllReset k allowed 0 delete_slash_events refl)
                  (λ z.
                    Keeps-bind (AllReset k allowed) (call k 0 delete_historical_rewards) _
                      (call-AllReset k allowed 0 delete_historical_rewards refl)
                      (λ w.
                        Keeps-bind (AllReset k allowed)
                          (gets k.operators >>= iterate (recreate_validator k)) _
                          (λ t.
                            iterate-Keeps (AllReset k allowed) (recreate_validator k)
                              (k.operators t) recreate_validator-AllReset t)
                          (λ v. recreate_delegations-AllReset dels))))))
