-- ===== src/App/Export.antt =====
-- `ExportAppStateAndValidators` and `prepForZeroHeightGenesis` of app/export.go. The keepers of the
-- staking, distribution, slashing and crisis modules are code of other repositories: what they answer
-- is any function of the calls made so far.
pub mod Distribution
pub mod Staking
pub mod Resets
mod Keeping
pub mod Written
pub mod Outcome
pub mod Exported
pub mod Willing
pub mod Success
use shinzohub.Prelude.{
  ℕ, Bytes, Bool, true, false, Option, none, some, List, [], ◌∷◌, ◌++◌, map, not, ◌&&◌, Result, ok,
  err, Exec, pure, fail, lift, gets, modify, map_err, resume, ◌>>=◌, ◌>>◌, ◌+◌, ◌%◌, ◌^◌, codes,
  same, contains, if◌then◌else◌,
}
use shinzohub.Sourcehub.State.{LibError}

-- The fields that the code changes, and the others as they stand. An `int64` is its value modulo
-- 2 ^ 64.
pub record Entry : Type 0 where
  pub creation_height : ℕ
  pub other_fields : Bytes

pub record Redelegation : Type 0 where
  pub delegator : Bytes
  pub source : Bytes
  pub destination : Bytes
  pub entries : List Entry

pub record Unbonding : Type 0 where
  pub delegator : Bytes
  pub validator : Bytes
  pub entries : List Entry

pub record Validator : Type 0 where
  pub jailed : Bool
  pub unbonding_height : ℕ
  pub other_fields : Bytes

pub record SigningInfo : Type 0 where
  pub start_height : ℕ
  pub other_fields : Bytes

pub record Delegation : Type 0 where
  pub delegator_address : Bytes
  pub validator_address : Bytes

abbrev pub Coins : Type 0
Coins = List (Bytes × ℕ)

-- The calls of the keepers that change the chain's state.
pub data KeeperOp : Type 0 where
  assert_invariants delete_slash_events delete_historical_rewards apply_validator_updates : KeeperOp
  withdraw_commission after_validator_created : Bytes → KeeperOp
  withdraw_rewards before_delegation_created after_delegation_modified : Bytes → Bytes → KeeperOp
  set_fee_pool : Coins → KeeperOp
  set_redelegation : Redelegation → KeeperOp
  set_unbonding : Unbonding → KeeperOp
  set_validator : Bytes → Validator → KeeperOp
  set_signing_info : Bytes → SigningInfo → KeeperOp

-- A call and the height of the context it was given.
pub record Call : Type 0 where
  pub height : ℕ
  pub op : KeeperOp

abbrev pub Calls : Type 0
Calls = List Call

-- What an iteration visits, and the error it ends with.
abbrev pub Visits : Type 0 → Type 0
Visits A = List A × Option LibError

pub record Keepers : Type 0 where
  pub last_block_height : ℕ
  pub accept : Calls → Call → Result LibError (Unit {0})
  pub val_from_bech32 : Bytes → Result LibError Bytes
  pub acc_from_bech32 : Bytes → Result LibError Bytes
  pub val_to_bech32 : Bytes → Bytes
  pub operator_bytes : Bytes → Result LibError Bytes
  pub operators : Calls → Visits Bytes
  pub delegations : Calls → Result LibError (List Delegation)
  pub outstanding_rewards : Calls → Bytes → Result LibError Coins
  pub community_pool : Calls → Result LibError Coins
  pub add_coins : Coins → Coins → Coins
  pub redelegations : Calls → Visits Redelegation
  pub unbondings : Calls → Visits Unbonding
  pub validator_addresses : Calls → List Bytes
  pub get_validator : Calls → Bytes → Result LibError Validator
  pub close_iterator : Calls → Result LibError (Unit {0})
  pub signing_infos : Calls → Visits (Bytes × SigningInfo)
  pub export_genesis : Calls → List Bytes → Result LibError Bytes
  pub marshal : Bytes → Result LibError Bytes
  pub write_validators : Calls → Result LibError Bytes
  pub consensus_params : Calls → Bytes

-- `panic(err)`, `log.Fatal(err)` and `return err`.
pub data Stop : Type 0 where
  panicked fatal returned : LibError → Stop

abbrev pub Run : Type 0 → Type 0
Run A = Exec Calls Stop A

-- A call and the error it returns.
unfoldable pub call : Keepers → ℕ → KeeperOp → Run (Result LibError (Unit {0}))
call k h op calls =
    let c : Call = record { height = h; op = op } in (ok (k.accept calls c), calls ++ c ∷ [])

-- `if err := f(ctx, …); err != nil { stop(err) }`
unfoldable pub call_or : (LibError → Stop) → Keepers → ℕ → KeeperOp → Run (Unit {0})
call_or stop k h op = call k h op >>= λ r. lift (map_err stop r)

abbrev pub must : {A : Type 0} → Result LibError A → Run A
must r = lift (map_err panicked r)

unfoldable pub for_each : {A : Type 0} → (A → Run (Unit {0})) → List A → Run (Unit {0})
for_each f [] = pure tt
for_each f (x ∷ xs) = f x >> for_each f xs

-- `err = keeper.Iterate…(ctx, f); if err != nil { panic(err) }`. The items are those that the store
-- has when the iteration begins: the callbacks write an item under the key it came from, or other
-- keys.
unfoldable pub iterate : {A : Type 0} → (A → Run (Unit {0})) → Visits A → Run (Unit {0})
iterate f (xs, none) = for_each f xs
iterate f (xs, some e) = for_each f xs >> fail (panicked e)
