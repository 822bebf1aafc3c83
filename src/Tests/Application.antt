-- ===== src/Tests/Application.antt =====
-- The theorems on the application's set-up and blocks at toy libraries, app/app.go, app/upgrades.go and
-- app/precompiles.go.
use shinzohub.Prelude.{
  Bytes, true, false, none, List, [], ◌∷◌, ◌++◌, map, ◌≡◌, ◌↔◌, ◌⊎◌, refl, ok, err, codes,
}
use shinzohub.App.Statics.{
  StaticLib, Contracts, library_contract, with_address_codec, new_available_static_precompiles,
  put_all,
}
use shinzohub.App.Statics
use shinzohub.App.Statics.Table.{IsTable, new_available_static_precompiles-IsTable}
use shinzohub.App.Accounts.{AccountLib, blocked_addresses}
use shinzohub.App.Accounts.Blocked.{
  account_names, IsModuleAccount, IsContractAddress, blocked_addresses_iff,
}
use shinzohub.App.Lifecycle.{Chain, BlockEnv, finalize_blocks}
use shinzohub.App.Lifecycle.Blocks.{after_first, finalize_blocks_once}

abbrev toy_statics : StaticLib
toy_statics = record {
  new_bech32_codec = λ p. p;
  account_prefix = codes "shinzo";
  validator_prefix = codes "shinzovaloper";
  consensus_prefix = codes "shinzovalcons";
  hex_to_address = λ h. h;
  available_static_precompiles = codes "0x400" ∷ [];
  contracts_berlin = λ a. none;
  p256 = library_contract (codes "p256") (codes "0x100");
  new_bech32 = λ gas. ok (library_contract (codes "bech32") (codes "0x400"));
  new_staking = λ c. ok (library_contract c (codes "0x800"));
  new_distribution = λ c. ok (library_contract c (codes "0x801"));
  new_ics20 = ok (library_contract (codes "ics20") (codes "0x802"));
  new_bank = ok (library_contract (codes "bank") (codes "0x804"));
  new_gov = λ c. ok (library_contract c (codes "0x805"));
  new_slashing = λ c d. ok (library_contract c (codes "0x806"));
  load_view_abi = ok tt;
  load_entity_abi = ok tt;
}

abbrev toy_table : Contracts
toy_table =
    put_all toy_statics
      (library_contract (codes "bech32") (codes "0x400")
        ∷ library_contract (codes "p256") (codes "0x100")
        ∷ library_contract (codes "mine") (codes "0x800")
        ∷ library_contract (codes "mine") (codes "0x801")
        ∷ library_contract (codes "ics20") (codes "0x802")
        ∷ library_contract (codes "bank") (codes "0x804")
        ∷ library_contract (codes "mine") (codes "0x805")
        ∷ library_contract (codes "shinzovaloper") (codes "0x806")
        ∷ Statics.view_registry 0
        ∷ Statics.entity_registry 0
        ∷ [])
      toy_statics.contracts_berlin

table_made :
    new_available_static_precompiles toy_statics (with_address_codec (codes "mine") ∷ [])
    ≡ ok toy_table
unfolding new_available_static_precompiles Statics.new_contracts Statics.new_registries
    Statics.apply_options
table_made = refl

new_available_static_precompiles-IsTable_example :
    IsTable toy_statics (with_address_codec (codes "mine") ∷ []) toy_table
new_available_static_precompiles-IsTable_example =
    new_available_static_precompiles-IsTable toy_statics (with_address_codec (codes "mine") ∷ [])
      toy_table table_made

abbrev toy_accounts : AccountLib
toy_accounts = record {
  fee_collector = codes "fee_collector";
  distr = codes "distribution";
  mint = codes "mint";
  bonded_pool = codes "bonded";
  not_bonded_pool = codes "not_bonded";
  gov = codes "gov";
  nft = codes "nft";
  transfer = codes "transfer";
  ica = codes "interchainaccounts";
  evm = codes "evm";
  feemarket = codes "feemarket";
  erc20 = codes "erc20";
  module_address = λ n. codes "shinzo1" ++ n;
  eth_hex_to_cosmos = λ h. codes "shinzo" ++ h;
  addresses_berlin = codes "0x1" ∷ [];
}

blocked_addresses_iff_example :
    (blocked_addresses toy_accounts toy_statics (account_names toy_accounts) (codes "shinzo1gov")
      ≡ true)
    ↔ (IsModuleAccount toy_accounts (codes "shinzo1gov")
        ⊎ IsContractAddress toy_accounts toy_statics (codes "shinzo1gov"))
blocked_addresses_iff_example =
    blocked_addresses_iff toy_accounts toy_statics (account_names toy_accounts)
      (λ n. (λ m. m, λ m. m)) (codes "shinzo1gov")

abbrev migrating : BlockEnv
migrating = record {
  params = err (codes "not found");
  migrate_params = ok tt;
  base_finalize = λ req. ok req;
}

abbrev fresh_chain : Chain
fresh_chain = record { once_done = false; migrations = 0; finalized = [] }

abbrev two_blocks : List (BlockEnv × Bytes)
two_blocks = (migrating, codes "2") ∷ (migrating, codes "3") ∷ []

abbrev later_reqs : List Bytes
later_reqs = map (λ b. b.1) two_blocks

finalize_blocks_once_example :
    let t = finalize_blocks ((migrating, codes "1") ∷ two_blocks) fresh_chain in
    ((migrating.params ≡ ok tt) × (t ≡ after_first 0 (codes "1" ∷ later_reqs) fresh_chain))
    ⊎ (((e : Bytes) × (migrating.params ≡ err e))
        × (migrating.migrate_params ≡ ok tt)
        × (t ≡ after_first 1 (codes "1" ∷ later_reqs) fresh_chain))
    ⊎ (((e : Bytes) × (migrating.params ≡ err e))
        × ((e : Bytes) × (migrating.migrate_params ≡ err e))
        × (t ≡ after_first 1 later_reqs fresh_chain))
finalize_blocks_once_example =
    finalize_blocks_once migrating (codes "1") two_blocks fresh_chain refl
