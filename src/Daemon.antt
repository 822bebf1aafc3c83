-- ===== src/Daemon.antt =====
-- The daemon's commands: `appExport` of cmd/shinzohubd/commands.go and the liveness probe of
-- cmd/shinzohubd/probe.go. Reading options and building the application are library code or wiring.
pub mod Outcome
pub mod Root
use shinzohub.Prelude.{
  ℕ, Bytes, Bool, true, false, Option, none, some, List, [], ◌∷◌, Result, ok, err, and_then,
  map_err, codes, is_empty, ◌==◌, if◌then◌else◌, not, ◌-◌, ◌^◌,
}
use shinzohub.Sourcehub.State.{LibError}
use shinzohub.App.Export.{Keepers, Calls, Stop}
use shinzohub.App.Export.Staking.{ExportedApp, export_app_state_and_validators}

-- `home` is the home flag if it is a text; `is_viper` says whether the options are a `*viper.Viper`.
pub record Options : Type 0 where
  pub home : Option Bytes
  pub is_viper : Bool
  pub inv_check_period : ℕ

-- The application that `NewChainApp` makes from the options, with the latest state or none, and the one
-- with the state of a height.
pub record AppLib : Type 0 where
  pub new_chain_app : Bool → Options → Keepers
  pub load_height : Keepers → ℕ → Result LibError Keepers

pub data ExportError : Type 0 where
  home_not_set not_viper : ExportError
  load_failed : LibError → ExportError
  stopped : Stop → ExportError

-- The `int64` -1.
abbrev pub minus_one : ℕ
minus_one = 2 ^ 64 - 1

abbrev pub has_home : Option Bytes → Bool
has_home none = false
has_home (some path) = not (is_empty path)

unfoldable pub load_app : AppLib → Options → ℕ → Result ExportError Keepers
load_app lib opts height =
    let app = lib.new_chain_app (height == minus_one) opts in
    if height == minus_one then ok app else map_err load_failed (lib.load_height app height)

unfoldable pub app_export :
    AppLib → Options → ℕ → Bool → List Bytes → List Bytes → Result ExportError ExportedApp
app_export lib opts height for_zero_height allowed modules =
    if not (has_home opts.home)
    then err home_not_set
    else if not opts.is_viper
    then err not_viper
    else and_then (load_app lib (record opts { inv_check_period = 1 }) height) (λ app.
      map_err stopped (export_app_state_and_validators app for_zero_height allowed modules []).0)

pub data ProbeError : Type 0 where
  failed : LibError → ProbeError
  not_live : ProbeError

-- The node's status, by the height of its latest block.
unfoldable pub probe : Result LibError (Unit {0}) → Result LibError ℕ → Result ProbeError (Unit {0})
probe context status =
    and_then (map_err failed context)
      λ u. and_then (map_err failed status) λ height. if height == 0 then err not_live else ok tt
