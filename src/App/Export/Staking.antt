-- ===== src/App/Export/Staking.antt =====
-- The rest of `prepForZeroHeightGenesis`, app/export.go: the heights of the staking and slashing state
-- are set to 0, and validators are jailed. And `ExportAppStateAndValidators`, which calls it.
use shinzohub.Prelude.{
  ℕ, Bytes, Bool, true, false, List, [], ◌∷◌, map, not, ok, err, pure, lift, gets, map_err, ◌>>=◌,
  ◌>>◌, ◌+◌, ◌%◌, ◌^◌, codes, contains, if◌then◌else◌,
}
use shinzohub.App.Export.{
  Keepers, set_redelegation, set_unbonding, set_validator, set_signing_info,
  apply_validator_updates, assert_invariants, Entry, Redelegation, Unbonding, Validator,
  SigningInfo, panicked, fatal, returned, Run, call_or, for_each, iterate,
}
use shinzohub.App.Export.Distribution.{reset_distribution}

abbrev pub reset_entry : Entry → Entry
reset_entry e = record e { creation_height = 0 }

abbrev pub reset_redelegation : Redelegation → Redelegation
reset_redelegation red = record red { entries = map reset_entry red.entries }

abbrev pub reset_unbonding : Unbonding → Unbonding
reset_unbonding ubd = record ubd { entries = map reset_entry ubd.entries }

-- `applyAllowedAddrs && !allowedAddrsMap[addr.String()]`
unfoldable pub must_jail : Keepers → List Bytes → Bytes → Bool
must_jail k [] addr = false
must_jail k (a ∷ allowed) addr = not (contains (k.val_to_bech32 addr) (a ∷ allowed))

unfoldable pub reset_validator : Bool → Validator → Validator
reset_validator jail v = record v { unbonding_height = 0; jailed = if jail then true else v.jailed }

abbrev pub reset_info : SigningInfo → SigningInfo
reset_info info = record info { start_height = 0 }

unfoldable pub reset_redelegations : Keepers → ℕ → Run (Unit {0})
reset_redelegations k h =
    gets k.redelegations
    >>= iterate λ red. call_or panicked k h (set_redelegation (reset_redelegation red))

unfoldable pub reset_unbondings : Keepers → ℕ → Run (Unit {0})
reset_unbondings k h =
    gets k.unbondings >>= iterate λ ubd. call_or panicked k h (set_unbonding (reset_unbonding ubd))

unfoldable pub reset_validators : Keepers → ℕ → List Bytes → Run (Unit {0})
reset_validators k h allowed =
    gets k.validator_addresses
    >>= for_each λ addr. do
      v ← gets (λ t. k.get_validator t addr) >>= λ r.
          lift (map_err (λ e. panicked (codes "expected validator, not found")) r)
      call_or panicked k h (set_validator addr (reset_validator (must_jail k allowed addr) v))

-- The heights of the signing infos.
unfoldable pub reset_infos : Keepers → ℕ → Run (Unit {0})
reset_infos k h =
    gets k.signing_infos
    >>= iterate λ i. call_or panicked k h (set_signing_info i.0 (reset_info i.1))

-- If the iterator over the validators fails to close, the error is logged and the function returns.
unfoldable pub finish : Keepers → ℕ → Run (Unit {0})
finish k h = gets k.close_iterator >>= λ r. elim r [
  | err e ↦ pure tt
  | ok u ↦ call_or fatal k h apply_validator_updates >> reset_infos k h
]

unfoldable pub check_allowed : Keepers → List Bytes → Run (Unit {0})
check_allowed k = for_each λ a. lift (map_err fatal (k.val_from_bech32 a)) >> pure tt

unfoldable pub prep_for_zero_height_genesis : Keepers → List Bytes → Run (Unit {0})
prep_for_zero_height_genesis k allowed = do
  call_or panicked k k.last_block_height assert_invariants
  check_allowed k allowed
  reset_distribution k
  reset_redelegations k k.last_block_height
  reset_unbondings k k.last_block_height
  reset_validators k k.last_block_height allowed
  finish k k.last_block_height

pub record ExportedApp : Type 0 where
  pub app_state : Bytes
  pub validators : Bytes
  pub height : ℕ
  pub consensus_params : Bytes

unfoldable pub prepare : Keepers → Bool → List Bytes → Run ℕ
prepare k true allowed = prep_for_zero_height_genesis k allowed >> pure 0
prepare k false allowed = pure ((k.last_block_height + 1) % 2 ^ 64)

unfoldable pub export_app_state_and_validators :
    Keepers → Bool → List Bytes → List Bytes → Run ExportedApp
export_app_state_and_validators k for_zero_height allowed modules = do
  height ← prepare k for_zero_height allowed
  state ← gets (λ t. k.export_genesis t modules) >>= λ r. lift (map_err returned r)
  app_state ← lift (map_err returned (k.marshal state))
  validators ← gets k.write_validators >>= λ r. lift (map_err returned r)
  params ← gets k.consensus_params
  pure record {
    app_state = app_state;
    validators = validators;
    height = height;
    consensus_params = params;
  }
