-- ===== src/App/Accounts.antt =====
-- The module accounts and the addresses that may not receive funds: `maccPerms` and
-- `BlockedAddresses` of app/app.go. The names of the library's modules and the making of addresses
-- are code of other repositories.
pub mod Blocked
use shinzohub.Prelude.{
  ℕ, Bytes, Bool, true, false, Option, none, some, List, [], ◌∷◌, ◌++◌, map, same, codes,
  if◌then◌else◌,
}
use shinzohub.Sourcehub.Keys.{module_name}
use shinzohub.App.Statics.{StaticLib, get_available_static_precompiles}

pub data Permission : Type 0 where
  minter burner staking : Permission

pub record AccountLib : Type 0 where
  pub fee_collector : Bytes
  pub distr : Bytes
  pub mint : Bytes
  pub bonded_pool : Bytes
  pub not_bonded_pool : Bytes
  pub gov : Bytes
  pub nft : Bytes
  pub transfer : Bytes
  pub ica : Bytes
  pub evm : Bytes
  pub feemarket : Bytes
  pub erc20 : Bytes
  -- `authtypes.NewModuleAddress(name).String()`
  pub module_address : Bytes → Bytes
  -- `evmosutils.EthHexToCosmosAddr(hex).String()`
  pub eth_hex_to_cosmos : Bytes → Bytes
  -- `vm.PrecompiledAddressesBerlin`, as `Hex()` writes them
  pub addresses_berlin : List Bytes

abbrev pub macc_perms : AccountLib → List (Bytes × List Permission)
macc_perms lib =
    (lib.fee_collector, [])
    ∷ (lib.distr, [])
    ∷ (lib.mint, minter ∷ [])
    ∷ (lib.bonded_pool, burner ∷ staking ∷ [])
    ∷ (lib.not_bonded_pool, burner ∷ staking ∷ [])
    ∷ (lib.gov, burner ∷ [])
    ∷ (lib.nft, [])
    ∷ (lib.transfer, minter ∷ burner ∷ [])
    ∷ (lib.ica, [])
    ∷ (lib.evm, minter ∷ burner ∷ [])
    ∷ (lib.feemarket, [])
    ∷ (lib.erc20, minter ∷ burner ∷ [])
    ∷ (module_name, [])
    ∷ []

-- `map[string]bool`
abbrev pub Flags : Type 0
Flags = Bytes → Bool

unfoldable pub set_flags : (Bytes → Bytes) → List Bytes → Flags → Flags
set_flags f [] flags = flags
set_flags f (x ∷ xs) flags = set_flags f xs (λ a. if same a (f x) then true else flags a)

unfoldable pub delete_flag : Bytes → Flags → Flags
delete_flag x flags a = if same a x then false else flags a

-- `accounts` are the names in the order in which Go visits the map, which is not fixed.
unfoldable pub blocked_addresses : AccountLib → StaticLib → List Bytes → Flags
blocked_addresses lib statics accounts =
    set_flags lib.eth_hex_to_cosmos
      (get_available_static_precompiles statics ++ lib.addresses_berlin)
      (delete_flag (lib.module_address lib.gov)
        (set_flags lib.module_address accounts (λ a. false)))
