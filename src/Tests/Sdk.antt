-- ===== src/Tests/Sdk.antt =====
-- The theorems on the SDK, sdk/, with a node that accepts everything.
use shinzohub.Prelude.{
  ◌*◌, Bytes, true, some, ok, codes, [], ◌∷◌, ◌==◌, if◌then◌else◌, span, ◌≡◌, refl,
}
use shinzohub.Sourcehub.Server.{Msg, shinzo_policy}
use shinzohub.Sdk.GasPrice.{parse_gas_price, read_price, is_price_char}
use shinzohub.Sdk.Builder.{
  TxBuilder, SdkLib, Signer, Tx, build, build_for, price_tx, sign_tx, estimate, fee_for, gas_for,
  get_account, placeholder_tx, signer_data,
}
use shinzohub.Sdk.Builder.Outcome.{IsBuilt, build-IsBuilt}

-- A decimal is its text, and every price is 3.
abbrev toy_lib : SdkLib
toy_lib = record {
  Decimal = Bytes;
  set_msgs = λ msg. ok tt;
  account = λ bech. ok bech;
  unmarshal_account = λ value. ok (record { number = 5; sequence = 9 });
  encode = λ tx. ok (codes "raw");
  simulate = λ raw. ok 1000;
  adjust_gas = λ used. used;
  dec_from_str = λ text. ok text;
  fee_amount = λ price gas. 3 * gas;
  new_coins = λ denom amount. ok (if amount == 0 then [] else (denom, amount) ∷ []);
  sign = λ data_to_sign tx. ok (codes "signed");
}

abbrev toy_signer : Signer
toy_signer = record { address = codes "addr"; pub_key = codes "pk" }

abbrev toy_msg : Msg
toy_msg = shinzo_policy (record { signer = codes "addr" })

abbrev toy_builder : TxBuilder
toy_builder = record {
  chain_id = codes "chain";
  gas_limit = 200000;
  min_gas_price = codes "3stake";
  has_clients = true;
}

abbrev toy_tx : Tx
toy_tx = record {
  message = toy_msg;
  gas_limit = 1000;
  fee = some ((codes "stake", 3000) ∷ []);
  signature = some (record { pub_key = codes "pk"; bytes = codes "signed"; sequence = 9 });
}

toy_built : build toy_lib toy_builder toy_signer toy_msg ≡ ok toy_tx
unfolding build build_for price_tx sign_tx estimate fee_for gas_for get_account placeholder_tx
    signer_data parse_gas_price read_price is_price_char span
toy_built = refl

build-IsBuilt_example : IsBuilt toy_lib toy_builder toy_signer toy_msg toy_tx
build-IsBuilt_example = build-IsBuilt toy_lib toy_builder toy_signer toy_msg toy_tx toy_built
