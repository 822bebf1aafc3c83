-- ===== src/Tests/Precompiles.antt =====
-- The theorems on the precompiles, app/precompiles.
use shinzohub.Prelude.{Bytes, List, [], ◌∷◌, ok, Fails, codes, ◌⊎◌}
use shinzohub.Precompiles.Evm.{World, Contract, Arg, bytes, uint8, EvmLib}
use shinzohub.Precompiles.Sdl.{Match}
use shinzohub.Precompiles.Entities.{entity_registry_register}
use shinzohub.Precompiles.Entities.Register.{IsRegisteredEntity, entity_registry_register_cases}
use shinzohub.Precompiles.Views.{BundleLib, view_registry_register}
use shinzohub.Precompiles.Views.Register.{IsRegisteredView, view_registry_register_cases}
use shinzohub.Tests.Fixtures.{toy_crypto, toy_env, peer_key, alice, start}

abbrev toy_evm : EvmLib
toy_evm = record {
  keccak = λ b. b;
  hash_hex = λ b. b;
  bytes_to_hash = λ b. b;
  left_pad_32 = λ b. b;
  account_string = λ b. b;
  base64 = λ b. b;
  pack_entity = λ did pid entity. ok did;
}

abbrev toy_bundles : BundleLib
toy_bundles = record { decode = λ b. ok (record { sdl = b; others = [] }); encode = λ b. ok b.sdl }

abbrev toy_contract : Contract
toy_contract = record { address = codes "registry"; caller = alice; value = 0 }

abbrev toy_world : World
toy_world = record { module_state = start; storage = λ a k. []; logs = [] }

abbrev schema : Bytes
schema = codes "type Block { hash: String }"

abbrev found : Match
found = record { before = codes "type "; name = codes "Block"; after = codes " { hash: String }" }

abbrev view_args : List Arg
view_args = bytes schema ∷ []

view_registry_register_cases_example :
    Fails
      (view_registry_register toy_env toy_evm toy_bundles toy_contract view_args toy_world)
      toy_world
    ⊎ IsRegisteredView toy_env toy_evm toy_bundles toy_contract view_args toy_world
        (view_registry_register toy_env toy_evm toy_bundles toy_contract view_args toy_world)
view_registry_register_cases_example =
    view_registry_register_cases toy_env toy_evm toy_bundles toy_contract view_args toy_world

abbrev entity_args : List Arg
entity_args =
    bytes peer_key
    ∷ bytes (codes "signature")
    ∷ bytes (codes "node")
    ∷ bytes (codes "node")
    ∷ bytes (codes "message")
    ∷ uint8 1
    ∷ []

entity_registry_register_cases_example :
    Fails
      (entity_registry_register toy_crypto toy_env toy_evm toy_contract entity_args toy_world)
      toy_world
    ⊎ IsRegisteredEntity toy_crypto toy_env toy_evm toy_contract entity_args toy_world
        (entity_registry_register toy_crypto toy_env toy_evm toy_contract entity_args toy_world)
entity_registry_register_cases_example =
    entity_registry_register_cases toy_crypto toy_env toy_evm toy_contract entity_args toy_world
