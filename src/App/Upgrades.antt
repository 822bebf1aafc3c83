-- ===== src/App/Upgrades.antt =====
-- `RegisterUpgradeHandlers` of app/upgrades.go with the types of app/upgrades/types.go and the upgrade of
-- app/upgrades/noop/upgrades.go. The module manager and the upgrade keeper are code of other
-- repositories. The keepers that a handler could use are left out, as no handler uses one.
pub mod Laws
use shinzohub.Prelude.{
  ℕ, Bytes, Bool, true, false, Option, none, some, List, [], ◌∷◌, ◌++◌, map, Result, ok, err, Exec,
  pure, gets, modify, lift, map_err, ◌>>=◌, ◌>>◌, same, if◌then◌else◌,
}
use shinzohub.Sourcehub.State.{LibError}

-- `module.VersionMap`
abbrev pub VersionMap : Type 0
VersionMap = List (Bytes × ℕ)

-- `ModuleManager.RunMigrations` on the context and the configurator of the application.
pub record ModuleManager : Type 0 where
  pub run_migrations : VersionMap → Result LibError VersionMap

pub record Plan : Type 0 where
  pub plan_name : Bytes
  pub plan_height : ℕ

-- `upgradetypes.UpgradeHandler`
abbrev pub UpgradeHandler : Type 0
UpgradeHandler = Plan → VersionMap → Result LibError VersionMap

pub record StoreUpgrades : Type 0 where
  pub added : List Bytes
  pub deleted : List Bytes

pub record Upgrade : Type 0 where
  pub upgrade_name : Bytes
  pub create_upgrade_handler : ModuleManager → UpgradeHandler
  pub store_upgrades : StoreUpgrades

-- The upgrade of app/upgrades/noop.
abbrev pub noop_handler : ModuleManager → UpgradeHandler
noop_handler mm plan from_vm = mm.run_migrations from_vm

abbrev pub noop_upgrade : Bytes → Upgrade
noop_upgrade semver = record {
  upgrade_name = semver;
  create_upgrade_handler = noop_handler;
  store_upgrades = record { added = []; deleted = [] };
}

-- `upgradetypes.Plan` as the file on disk has it.
pub record UpgradeInfo : Type 0 where
  pub info_name : Bytes
  pub info_height : ℕ

pub record UpgradeEnv : Type 0 where
  pub version : Bytes
  pub module_manager : ModuleManager
  pub read_upgrade_info : Result LibError UpgradeInfo
  pub is_skip_height : ℕ → Bool

-- The variable `Upgrades`, the calls of `SetUpgradeHandler`, and the last call of `SetStoreLoader`.
pub record Registered : Type 0 where
  pub upgrades : List Upgrade
  pub handlers : List (Bytes × UpgradeHandler)
  pub store_loader : Option (ℕ × StoreUpgrades)

-- The text of a panic.
pub data Panic : Type 0 where
  read_failed : LibError → Panic

abbrev pub Register : Type 0 → Type 0
Register A = Exec Registered Panic A

unfoldable pub with_default : Bytes → List Upgrade → List Upgrade
with_default version [] = noop_upgrade version ∷ []
with_default version (u ∷ us) = u ∷ us

unfoldable pub set_handlers : ModuleManager → List Upgrade → List (Bytes × UpgradeHandler)
set_handlers mm us = map (λ u. (u.upgrade_name, u.create_upgrade_handler mm)) us

unfoldable pub find_loader :
    UpgradeInfo → List Upgrade → Option (ℕ × StoreUpgrades) → Option (ℕ × StoreUpgrades)
find_loader info [] loader = loader
find_loader info (u ∷ us) loader =
    if same info.info_name u.upgrade_name
    then some (info.info_height, u.store_upgrades)
    else find_loader info us loader

unfoldable pub register_upgrade_handlers : UpgradeEnv → Register (Unit {0})
register_upgrade_handlers env = do
  modify (λ s. record s { upgrades = with_default env.version s.upgrades })
  modify (λ s. record s { handlers = s.handlers ++ set_handlers env.module_manager s.upgrades })
  info ← lift (map_err read_failed env.read_upgrade_info)
  (if env.is_skip_height info.info_height
      then pure tt
      else modify (λ s. record s { store_loader = find_loader info s.upgrades s.store_loader }))
