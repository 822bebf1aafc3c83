-- ===== src/App/Export/Success.antt =====
-- That `prepForZeroHeightGenesis` of app/export.go succeeds when the keepers do.
use shinzohub.Prelude.{ℕ}
use shinzohub.App.Export.{Keepers}
use shinzohub.App.Export.Willing.{IsWilling}

module _ (k : Keepers) (w : IsWilling k) where
  abbrev last : ℕ
  last = k.last_block_height
