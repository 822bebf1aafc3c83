-- ===== src/Daemon/Outcome.antt =====
-- What the export command returns, cmd/shinzohubd/commands.go.
use shinzohub.Prelude.{
  ℕ, Bytes, Bool, true, false, List, [], ◌≡◌, ◌≢◌, ◌⊎◌, inl, inr, sym, ap, ok_injective, ok,
  Bool-cases, and_then-ok, guard-ok, map_err-ok, ◌==◌, arith, not,
}
use shinzohub.App.Export.{Keepers, Calls}
use shinzohub.App.Export.Staking.{ExportedApp, export_app_state_and_validators}
use shinzohub.App.Export.Exported.{IsExported, export_app_state_and_validators-IsExported}
use shinzohub.Daemon.{
  Options, AppLib, minus_one, load_app, app_export, stopped, load_failed, has_home, home_not_set,
  not_viper,
}

pub record IsCommandExport (lib : AppLib) (opts : Options) (height : ℕ) (zero : Bool)
    (allowed modules : List Bytes) (exported : ExportedApp) : Type 0 where
  pub has_home : has_home opts.home ≡ true
  pub app : Keepers
  pub loaded :
      let opts' = record opts { inv_check_period = 1 } in
      ((height ≡ minus_one) × (app ≡ lib.new_chain_app true opts'))
      ⊎ ((height ≢ minus_one) × (lib.load_height (lib.new_chain_app false opts') height ≡ ok app))
  pub calls : Calls
  pub export : IsExported app zero allowed modules exported calls

load_app-ok :
    (lib : AppLib) (opts : Options) (height : ℕ) (app : Keepers)
    → load_app lib opts height ≡ ok app
    → ((height ≡ minus_one) × (app ≡ lib.new_chain_app true opts))
      ⊎ ((height ≢ minus_one) × (lib.load_height (lib.new_chain_app false opts) height ≡ ok app))
unfolding load_app
load_app-ok lib opts height app h = elim (Bool-cases (height == minus_one)) [
  | inl e ↦ inl (ground (arith, e), sym (ok_injective _ _ (rw e at h)))
  | inr e ↦ inr (ground (arith, e), map_err-ok load_failed _ app (rw e at h))
]

-- The command that exports the state succeeds only with a home directory that is set, on the
-- application as it was made with the latest state for the height -1, and otherwise with the state of
-- the height; and it then returns what that application exports.
pub app_export-IsCommandExport :
    (lib : AppLib) (opts : Options) (height : ℕ) (zero : Bool) (allowed modules : List Bytes)
    (exported : ExportedApp)
    → app_export lib opts height zero allowed modules ≡ ok exported
    → IsCommandExport lib opts height zero allowed modules exported
unfolding app_export
app_export-IsCommandExport lib opts height zero allowed modules exported h =
    let opts' : Options = record opts { inv_check_period = 1 } in
    let (home, h₁) = guard-ok (not (has_home opts.home)) home_not_set _ exported h in
    let (viper, h₂) = guard-ok (not opts.is_viper) not_viper _ exported h₁ in
    let (app, p, q) = and_then-ok (load_app lib opts' height) _ exported h₂ in
    let run = export_app_state_and_validators app zero allowed modules [] in
    let done : run.0 ≡ ok exported = map_err-ok stopped run.0 exported q in
    record {
      has_home = ground (arith, home);
      app = app;
      loaded = load_app-ok lib opts' height app p;
      calls = run.1;
      export =
          export_app_state_and_validators-IsExported app zero allowed modules exported run.1
            (ap (λ r. (r, run.1)) done);
    }
