-- ===== src/App/Export/Distribution.antt =====
-- "Handle fee distribution state" of `prepForZeroHeightGenesis`, app/export.go: all rewards are paid out,
-- and the records of validators and delegations are made anew, on a context of height 0.
use shinzohub.Prelude.{Bytes, List, gets, pure, ◌>>=◌, ◌>>◌}
use shinzohub.App.Export.{
  Keepers, Delegation, withdraw_commission, withdraw_rewards, delete_slash_events,
  delete_historical_rewards, set_fee_pool, after_validator_created, before_delegation_created,
  after_delegation_modified, panicked, Run, call, call_or, must, for_each, iterate,
}

unfoldable pub withdraw_commissions : Keepers → Run (Unit {0})
withdraw_commissions k =
    gets k.operators
    >>= iterate λ operator. do
      val ← must (k.operator_bytes operator)
      ignored ← call k 0 (withdraw_commission val)
      pure tt

unfoldable pub withdraw_all_rewards : Keepers → List Delegation → Run (Unit {0})
withdraw_all_rewards k = for_each λ d. do
  val ← must (k.val_from_bech32 d.validator_address)
  del ← must (k.acc_from_bech32 d.delegator_address)
  call_or panicked k 0 (withdraw_rewards del val)

unfoldable pub recreate_validator : Keepers → Bytes → Run (Unit {0})
recreate_validator k operator = do
  val ← must (k.operator_bytes operator)
  scraps ← gets (λ t. k.outstanding_rewards t val) >>= must
  pool ← gets k.community_pool >>= must
  call_or panicked k 0 (set_fee_pool (k.add_coins pool scraps))
  call_or panicked k 0 (after_validator_created val)

unfoldable pub recreate_delegations : Keepers → List Delegation → Run (Unit {0})
recreate_delegations k = for_each λ d. do
  val ← must (k.val_from_bech32 d.validator_address)
  del ← must (k.acc_from_bech32 d.delegator_address)
  call_or panicked k 0 (before_delegation_created del val)
  call_or panicked k 0 (after_delegation_modified del val)

-- "Handle fee distribution state", on a context of height 0.
unfoldable pub reset_distribution : Keepers → Run (Unit {0})
reset_distribution k = do
  withdraw_commissions k
  dels ← gets k.delegations >>= must
  withdraw_all_rewards k dels
  ignored ← call k 0 delete_slash_events
  ignored' ← call k 0 delete_historical_rewards
  gets k.operators >>= iterate (recreate_validator k)
  recreate_delegations k dels
