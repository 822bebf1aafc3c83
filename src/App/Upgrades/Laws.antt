-- ===== src/App/Upgrades/Laws.antt =====
-- What `RegisterUpgradeHandlers` of app/upgrades.go has set.
use shinzohub.Prelude.{
  ℕ, Bytes, true, false, Option, some, List, [], ◌∷◌, ◌++◌, ◌≡◌, ◌≢◌, ◌⊎◌, inl, inr, refl, ap, ok,
  err, Result-cases, Bool-cases, All, same, same→eq, same→ne,
}
use shinzohub.App.Upgrades.{
  Upgrade, UpgradeEnv, UpgradeInfo, StoreUpgrades, Registered, read_failed, with_default,
  set_handlers, find_loader, register_upgrade_handlers,
}

-- The first upgrade of a list with the name.
pub record IsFirst (name : Bytes) (us : List Upgrade) (u : Upgrade) : Type 0 where
  pub before : List Upgrade
  pub after : List Upgrade
  pub here : us ≡ before ++ u ∷ after
  pub named : name ≡ u.upgrade_name
  pub others : All (λ x. name ≢ x.upgrade_name) before

-- The loader for the upgrade that the file on disk names.
abbrev pub IsLoader :
    UpgradeInfo → List Upgrade → Option (ℕ × StoreUpgrades) → Option (ℕ × StoreUpgrades) → Type 0
IsLoader info us old new =
    ((u : Upgrade) × IsFirst info.info_name us u
      × (new ≡ some (info.info_height, u.store_upgrades)))
    ⊎ (All (λ x. info.info_name ≢ x.upgrade_name) us × (new ≡ old))

find_loader-IsLoader :
    (info : UpgradeInfo) (us : List Upgrade) (old : Option (ℕ × StoreUpgrades))
    → IsLoader info us old (find_loader info us old)
unfolding find_loader
find_loader-IsLoader info [] old = inr (tt, refl)
find_loader-IsLoader info (u ∷ us) old = elim (Bool-cases (same info.info_name u.upgrade_name)) [
  | inl e ↦
      inl (
        u,
        record { before = []; after = us; here = refl; named = same→eq _ _ e; others = tt },
        rw e,
      )
  | inr e ↦ elim (find_loader-IsLoader info us old) [
    | inl (v, f, q) ↦ inl (
      v,
      record {
        before = u ∷ f.before;
        after = f.after;
        here = ap (λ l. u ∷ l) f.here;
        named = f.named;
        others = (same→ne _ _ e, f.others);
      },
      rw (e, q),
    )
    | inr (ne, q) ↦ inr ((same→ne _ _ e, ne), rw (e, q))
  ]
]

-- The loader after the upgrades are registered.
pub record IsLoaded (env : UpgradeEnv) (s t : Registered) : Type 0 where
  pub info : UpgradeInfo
  pub read : env.read_upgrade_info ≡ ok info
  pub loader :
      ((env.is_skip_height info.info_height ≡ true) × (t.store_loader ≡ s.store_loader))
      ⊎ ((env.is_skip_height info.info_height ≡ false)
          × IsLoader info t.upgrades s.store_loader t.store_loader)

-- The upgrades and handlers before the file is read.
abbrev pub with_handlers : UpgradeEnv → Registered → Registered
with_handlers env s =
    let us = with_default env.version s.upgrades in
    record s { upgrades = us; handlers = s.handlers ++ set_handlers env.module_manager us }

-- Registering the upgrades sets, in their order, a handler for each upgrade of the list, into which the
-- upgrade that does nothing but run the migrations is put if it is empty. It panics exactly if the
-- upgrade's file cannot be read, and the store loader is then as before. Otherwise the store loader
-- stays as it was at a height to skip, and at any other height becomes that of the first upgrade with
-- the name in the file, and stays as it was if none has it.
pub register_upgrade_handlers_cases :
    (env : UpgradeEnv) (s : Registered)
    → ((e : Bytes) × (env.read_upgrade_info ≡ err e)
        × (register_upgrade_handlers env s ≡ (err (read_failed e), with_handlers env s)))
      ⊎ ((loader : Option (ℕ × StoreUpgrades)) × (register_upgrade_handlers env s
            ≡ (ok tt, record (with_handlers env s) { store_loader = loader }))
          × IsLoaded env s (record (with_handlers env s) { store_loader = loader }))
unfolding register_upgrade_handlers
register_upgrade_handlers_cases env s = elim (Result-cases env.read_upgrade_info) [
  | inl (e, r) ↦ inl (e, r, rw r)
  | inr (info, r) ↦ elim (Bool-cases (env.is_skip_height info.info_height)) [
    | inl k ↦
        inr (s.store_loader, rw (r, k), record { info = info; read = r; loader = inl (k, refl) })
    | inr k ↦ inr (
      find_loader info (with_default env.version s.upgrades) s.store_loader,
      rw (r, k),
      record {
        info = info;
        read = r;
        loader =
            inr (k, find_loader-IsLoader info (with_default env.version s.upgrades) s.store_loader);
      },
    )
  ]
]
