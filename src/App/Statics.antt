-- ===== src/App/Statics.antt =====
-- The static precompiled contracts, app/precompiles.go, with the constructors of the two registries in
-- app/precompiles/entityregistry/entityregistry.go and app/precompiles/viewregistry/viewregistry.go. The
-- contracts of the EVM's library and its constructors are code of other repositories; the keepers that
-- they are given are left out.
pub mod Table
use shinzohub.Prelude.{
  ℕ, Bytes, Option, none, some, List, [], ◌∷◌, ◌++◌, Result, ok, err, and_then, map_err, codes,
  same, if◌then◌else◌,
}
use shinzohub.Sourcehub.State.{LibError}

-- An address codec, which the library makes for a prefix.
abbrev pub Codec : Type 0
Codec = Bytes

pub record Optionals : Type 0 where
  pub address_codec : Codec
  pub validator_addr_codec : Codec
  pub consensus_addr_codec : Codec

abbrev pub OptionFn : Type 0
OptionFn = Optionals → Optionals

abbrev pub with_address_codec : Codec → OptionFn
with_address_codec c o = record o { address_codec = c }

abbrev pub with_validator_addr_codec : Codec → OptionFn
with_validator_addr_codec c o = record o { validator_addr_codec = c }

abbrev pub with_consensus_addr_codec : Codec → OptionFn
with_consensus_addr_codec c o = record o { consensus_addr_codec = c }

-- `for _, opt := range opts { opt(&options) }`
unfoldable pub apply_options : List OptionFn → Optionals → Optionals
apply_options [] o = o
apply_options (f ∷ fs) o = apply_options fs (f o)

-- A contract of the library with its name and address, or one of the two registries with its gas.
pub data Contract : Type 0 where
  library_contract : Bytes → Bytes → Contract
  view_registry entity_registry : ℕ → Contract

pub record StaticLib : Type 0 where
  pub new_bech32_codec : Bytes → Codec
  pub account_prefix : Bytes
  pub validator_prefix : Bytes
  pub consensus_prefix : Bytes
  pub hex_to_address : Bytes → Bytes
  pub available_static_precompiles : List Bytes
  pub contracts_berlin : Bytes → Option Contract
  pub p256 : Contract
  pub new_bech32 : ℕ → Result LibError Contract
  pub new_staking : Codec → Result LibError Contract
  pub new_distribution : Codec → Result LibError Contract
  pub new_ics20 : Result LibError Contract
  pub new_bank : Result LibError Contract
  pub new_gov : Codec → Result LibError Contract
  pub new_slashing : Codec → Codec → Result LibError Contract
  pub load_view_abi : Result LibError (Unit {0})
  pub load_entity_abi : Result LibError (Unit {0})

abbrev pub view_registry_address : Bytes
view_registry_address = codes "0x0000000000000000000000000000000000000210"

abbrev pub entity_registry_address : Bytes
entity_registry_address = codes "0x0000000000000000000000000000000000000211"

abbrev pub bech32_base_gas : ℕ
bech32_base_gas = 6000

abbrev pub view_registry_base_gas : ℕ
view_registry_base_gas = 0

abbrev pub default_optionals : StaticLib → Optionals
default_optionals lib = record {
  address_codec = lib.new_bech32_codec lib.account_prefix;
  validator_addr_codec = lib.new_bech32_codec lib.validator_prefix;
  consensus_addr_codec = lib.new_bech32_codec lib.consensus_prefix;
}

abbrev pub contract_address : StaticLib → Contract → Bytes
contract_address lib (library_contract name address) = address
contract_address lib (view_registry gas) = lib.hex_to_address view_registry_address
contract_address lib (entity_registry gas) = lib.hex_to_address entity_registry_address

abbrev pub new_view_registry : StaticLib → ℕ → Result LibError Contract
new_view_registry lib gas = and_then lib.load_view_abi (λ abi. ok (view_registry gas))

abbrev pub new_entity_registry : StaticLib → ℕ → Result LibError Contract
new_entity_registry lib gas = and_then lib.load_entity_abi (λ abi. ok (entity_registry gas))

unfoldable pub get_available_static_precompiles : StaticLib → List Bytes
get_available_static_precompiles lib =
    lib.available_static_precompiles ++ view_registry_address ∷ []

-- `map[common.Address]vm.PrecompiledContract`
abbrev pub Contracts : Type 0
Contracts = Bytes → Option Contract

-- `precompiles[c.Address()] = c`
unfoldable pub put : StaticLib → Contract → Contracts → Contracts
put lib c m a = if same a (contract_address lib c) then some c else m a

unfoldable pub put_all : StaticLib → List Contract → Contracts → Contracts
put_all lib [] m = m
put_all lib (c ∷ cs) m = put_all lib cs (put lib c m)

-- `panic(fmt.Errorf("failed to instantiate …: %w", err))`
pub data Uninstantiated : Type 0 where
  failed_to_instantiate : Bytes → LibError → Uninstantiated

abbrev pub instantiate :
    {A : Type 0}
    → Bytes
    → Result LibError A
    → (A → Result Uninstantiated (List Contract))
    → Result Uninstantiated (List Contract)
instantiate name r f = and_then (map_err (failed_to_instantiate name) r) f

unfoldable pub new_registries : StaticLib → Result Uninstantiated (List Contract)
new_registries lib =
    instantiate (codes "view registry") (new_view_registry lib view_registry_base_gas) (λ view.
      instantiate (codes "view registry") (new_entity_registry lib view_registry_base_gas)
        (λ entity. ok (view ∷ entity ∷ [])))

-- The contracts in the order in which they are put into the table.
unfoldable pub new_contracts : StaticLib → Optionals → Result Uninstantiated (List Contract)
new_contracts lib o = instantiate (codes "bech32") (lib.new_bech32 bech32_base_gas) λ bech32.
    instantiate (codes "staking") (lib.new_staking o.address_codec) λ staking.
      instantiate (codes "distribution") (lib.new_distribution o.address_codec) λ distribution.
        instantiate (codes "ICS20") lib.new_ics20 λ ics20.
          instantiate (codes "bank") lib.new_bank λ bank.
            instantiate (codes "gov") (lib.new_gov o.address_codec) λ gov.
              instantiate (codes "slashing")
                (lib.new_slashing o.validator_addr_codec o.consensus_addr_codec)
                λ slashing. and_then (new_registries lib) λ registries. ok (
                  (bech32 ∷ lib.p256 ∷ staking ∷ distribution ∷ ics20 ∷ bank ∷ gov ∷ slashing ∷ [])
                  ++ registries)

unfoldable pub new_available_static_precompiles :
    StaticLib → List OptionFn → Result Uninstantiated Contracts
new_available_static_precompiles lib opts =
    and_then (new_contracts lib (apply_options opts (default_optionals lib)))
      (λ cs. ok (put_all lib cs lib.contracts_berlin))
