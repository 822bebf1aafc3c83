-- ===== src/Tests/Export.antt =====
-- The theorems on the export of the state at a chain with two validators, a redelegation, an unbonding
-- delegation and a signing info, app/export.go and cmd/shinzohubd/commands.go.
use shinzohub.Prelude.{Bytes, false, none, List, [], ◌∷◌, ◌++◌, Result, ok, err, and_then, codes}
use shinzohub.Sourcehub.State.{LibError}
use shinzohub.App.Export.{Keepers, Calls, Validator}
use shinzohub.App.Export.Staking.{ExportedApp, prep_for_zero_height_genesis}
use shinzohub.App.Export.Resets.{AllReset}
use shinzohub.App.Export.Written.{prep_for_zero_height_genesis-AllReset}

abbrev val_a : Bytes
val_a = codes "a"

abbrev val_b : Bytes
val_b = codes "b"

abbrev toy_validator : Validator
toy_validator = record { jailed = false; unbonding_height = 7; other_fields = [] }

-- Addresses have one character.
abbrev read_known : Bytes → Result LibError Bytes
read_known (c ∷ []) = ok (c ∷ [])
read_known _ = err (codes "no address")

abbrev toy_keepers : Keepers
toy_keepers = record {
  last_block_height = 41;
  accept = λ t c. ok tt;
  val_from_bech32 = read_known;
  acc_from_bech32 = read_known;
  val_to_bech32 = λ a. a;
  operator_bytes = read_known;
  operators = λ t. (val_a ∷ val_b ∷ [], none);
  delegations = λ t. ok (record { delegator_address = codes "d"; validator_address = val_a } ∷ []);
  outstanding_rewards = λ t v. ok ((codes "ushinzo", 1) ∷ []);
  community_pool = λ t. ok [];
  add_coins = λ a b. a ++ b;
  redelegations = λ t. (
    record {
      delegator = codes "d";
      source = val_a;
      destination = val_b;
      entries = record { creation_height = 5; other_fields = [] } ∷ [];
    }
        ∷ [],
    none,
  );
  unbondings = λ t. (
    record {
      delegator = codes "d";
      validator = val_a;
      entries = record { creation_height = 6; other_fields = [] } ∷ [];
    }
        ∷ [],
    none,
  );
  validator_addresses = λ t. val_b ∷ val_a ∷ [];
  get_validator = λ t a. and_then (read_known a) (λ b. ok toy_validator);
  close_iterator = λ t. ok tt;
  signing_infos = λ t. ((codes "c", record { start_height = 8; other_fields = [] }) ∷ [], none);
  export_genesis = λ t modules. ok (codes "state");
  marshal = λ s. ok s;
  write_validators = λ t. ok (codes "validators");
  consensus_params = λ t. codes "params";
}

abbrev allowed_a : List Bytes
allowed_a = val_a ∷ []

abbrev toy_calls : Calls
toy_calls = (prep_for_zero_height_genesis toy_keepers allowed_a []).1

prep_for_zero_height_genesis-AllReset_example : AllReset toy_keepers allowed_a toy_calls
prep_for_zero_height_genesis-AllReset_example =
    prep_for_zero_height_genesis-AllReset toy_keepers allowed_a

abbrev toy_exported : ExportedApp
toy_exported = record {
  app_state = codes "state";
  validators = codes "validators";
  height = 42;
  consensus_params = codes "params";
}
