-- ===== src/App/Lifecycle.antt =====
-- The application's own steps in app/app.go: `FinalizeBlock`, `InitChainer`, `setAnteHandler` and
-- `DefaultGenesis`. Base application, module manager and the keepers of consensus parameters and upgrades
-- are code of other repositories.
pub mod Blocks
use shinzohub.Prelude.{
  ℕ, Bytes, Bool, true, false, Option, none, some, List, [], ◌∷◌, ◌++◌, Result, ok, err, Exec, pure,
  fail, gets, modify, lift, map_err, and_then, resume, ◌>>=◌, ◌>>◌, ◌+◌, codes, same, if◌then◌else◌,
}
use shinzohub.Sourcehub.State.{LibError}
use shinzohub.App.Ante.{
  HandlerOptions, AnteError, validate_options, Decorator, Tx, new_ante_handler,
}

-- `app.once`, the migrations of the consensus parameters that were begun, and the requests that the base
-- application was given.
pub record Chain : Type 0 where
  pub once_done : Bool
  pub migrations : ℕ
  pub finalized : List Bytes

-- What the keepers and the base application answer while a block is finalized.
pub record BlockEnv : Type 0 where
  pub params : Result LibError (Unit {0})
  pub migrate_params : Result LibError (Unit {0})
  pub base_finalize : Bytes → Result LibError Bytes

pub data AppError : Type 0 where
  panicked returned : LibError → AppError

abbrev pub App : Type 0 → Type 0
App A = Exec Chain AppError A

-- The function of `app.once`: a migration if the parameters cannot be read.
unfoldable pub migrate_if_missing : BlockEnv → App (Unit {0})
migrate_if_missing env = elim env.params [
  | ok u ↦ pure tt
  | err e ↦
      modify (λ s. record s { migrations = s.migrations + 1 })
      >> lift (map_err panicked env.migrate_params)
]

-- `sync.Once.Do`, which counts as done also when the function panics.
unfoldable pub do_once : App (Unit {0}) → App (Unit {0})
do_once f s = elim s.once_done [ true ↦ (ok tt, s) | false ↦ f (record s { once_done = true }) ]

unfoldable pub finalize_block : BlockEnv → Bytes → App Bytes
finalize_block env req = do
  do_once (migrate_if_missing env)
  modify (λ s. record s { finalized = s.finalized ++ req ∷ [] })
  lift (map_err returned (env.base_finalize req))

-- The blocks that a node finalizes, whatever each call returns.
unfoldable pub finalize_blocks : List (BlockEnv × Bytes) → Chain → Chain
finalize_blocks [] s = s
finalize_blocks ((env, req) ∷ blocks) s = finalize_blocks blocks (finalize_block env req s).1

-- `InitChainer`: the genesis state is read, the modules' versions are stored, and the modules are
-- initialized.
pub record InitEnv : Type 0 where
  pub unmarshal : Bytes → Result LibError Bytes
  pub set_module_version_map : Result LibError (Unit {0})
  pub init_genesis : Bytes → Result LibError Bytes

unfoldable pub init_chainer : InitEnv → Bytes → Result AppError Bytes
init_chainer env app_state_bytes =
    and_then (map_err panicked (env.unmarshal app_state_bytes)) (λ state.
      and_then (map_err panicked env.set_module_version_map)
        (λ u. map_err returned (env.init_genesis state)))

-- `setAnteHandler`, which panics on options that are not valid.
unfoldable pub set_ante_handler :
    HandlerOptions → Result AnteError (Tx → Result AnteError (List Decorator))
set_ante_handler options = and_then (validate_options options) (λ u. ok new_ante_handler)

-- `map[string]json.RawMessage`, with the states of three library modules as they are before they are
-- marshalled.
pub data GenesisEntry : Type 0 where
  library_default : Bytes → GenesisEntry
  -- the minted denomination
  mint_state : Bytes → GenesisEntry
  -- the active static precompiled contracts
  evm_state : List Bytes → GenesisEntry
  -- the token pairs, as contract, denomination and whether it is enabled, and the native contracts
  erc20_state : List (Bytes × Bytes × Bool) → List Bytes → GenesisEntry

abbrev pub GenesisMap : Type 0
GenesisMap = Bytes → Option GenesisEntry

pub record GenesisLib : Type 0 where
  pub basic_default : GenesisMap
  pub mint_name : Bytes
  pub evm_name : Bytes
  pub erc20_name : Bytes
  pub available_static_precompiles : List Bytes
  pub default_native_precompiles : List Bytes

abbrev pub base_denom : Bytes
base_denom = codes "ushinzo"

abbrev pub wtoken_contract_mainnet : Bytes
wtoken_contract_mainnet = codes "0xD4949664cD82660AaE99bEdc034a0deA8A0bd517"

abbrev pub example_token_pairs : List (Bytes × Bytes × Bool)
example_token_pairs = (wtoken_contract_mainnet, base_denom, true) ∷ []

unfoldable pub set_entry : Bytes → GenesisEntry → GenesisMap → GenesisMap
set_entry name e g n = if same n name then some e else g n

unfoldable pub default_genesis : GenesisLib → GenesisMap
default_genesis lib =
    set_entry lib.erc20_name
      (erc20_state example_token_pairs
        (lib.default_native_precompiles ++ wtoken_contract_mainnet ∷ []))
      (set_entry lib.evm_name (evm_state lib.available_static_precompiles)
        (set_entry lib.mint_name (mint_state base_denom) lib.basic_default))
