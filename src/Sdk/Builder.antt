-- ===== src/Sdk/Builder.antt =====
-- The builder of transactions, sdk/txbuilder.go: its options, and `Build`.
pub mod Outcome
use shinzohub.Prelude.{
  ℕ, Bytes, Bool, true, false, Option, none, some, List, [], ◌∷◌, Result, ok, err, and_then,
  map_err, codes, ◌==◌, if◌then◌else◌,
}
use shinzohub.Sourcehub.State.{LibError}
use shinzohub.Sourcehub.Server.{Msg}
use shinzohub.Sdk.GasPrice.{GasPriceError, parse_gas_price}

-- `feeDenom` and `gasAdjustment` are fixed; the latter is a part of `adjust_gas` below.
pub record TxBuilder : Type 0 where
  pub chain_id : Bytes
  pub gas_limit : ℕ
  pub min_gas_price : Bytes
  pub has_clients : Bool

pub data TxBuilderOpt : Type 0 where
  with_sdk_client : TxBuilderOpt
  with_chain_id with_min_gas_price : Bytes → TxBuilderOpt

unfoldable pub apply_opt : TxBuilderOpt → TxBuilder → TxBuilder
apply_opt with_sdk_client b = record b { has_clients = true }
apply_opt (with_chain_id id) b = record b { chain_id = id }
apply_opt (with_min_gas_price gp) b = record b { min_gas_price = gp }

unfoldable pub apply_opts : List TxBuilderOpt → TxBuilder → TxBuilder
apply_opts [] b = b
apply_opts (o ∷ opts) b = apply_opts opts (apply_opt o b)

unfoldable pub default_builder : TxBuilder
default_builder = record {
  chain_id = codes "shinzohub-dev";
  gas_limit = 200000;
  min_gas_price = codes "0stake";
  has_clients = false;
}

pub data SdkError : Type 0 where
  requires_clients : SdkError
  library simulate_failed sign_failed : LibError → SdkError
  gas_price : GasPriceError → SdkError
  rejected : Bytes → SdkError
  rejected_with_code : Bytes → ℕ → SdkError
  encode_failed validate_failed : LibError → SdkError

unfoldable pub new_tx_builder : List TxBuilderOpt → Result SdkError TxBuilder
unfolding apply_opts default_builder
new_tx_builder opts =
    let b = apply_opts opts default_builder in if b.has_clients then ok b else err requires_clients

pub record Account : Type 0 where
  pub number : ℕ
  pub sequence : ℕ

-- A key that signs: its account's address and the public key.
pub record Signer : Type 0 where
  pub address : Bytes
  pub pub_key : Bytes

-- A signature with its public key and sequence; the placeholder has no bytes.
pub record SignatureV2 : Type 0 where
  pub pub_key : Bytes
  pub bytes : Bytes
  pub sequence : ℕ

-- A coin is a denomination and an amount.
abbrev pub Coins : Type 0
Coins = List (Bytes × ℕ)

-- The fee's coins are absent before they are set.
pub record Tx : Type 0 where
  pub message : Msg
  pub gas_limit : ℕ
  pub fee : Option Coins
  pub signature : Option SignatureV2

pub record SignerData : Type 0 where
  pub chain_id : Bytes
  pub account_number : ℕ
  pub sequence : ℕ
  pub pub_key : Bytes

-- The libraries of the chain and its node. `adjust_gas` is the product with the gas adjustment in
-- floating point, rounded up; `fee_amount` the product of decimal price and gas, rounded up; and
-- `new_coins` the library's `NewCoins(NewCoin(denom, amount))`, which drops a coin of amount 0: it
-- fails where one of the two panics.
pub record SdkLib : Type 1 where
  pub Decimal : Type 0
  pub set_msgs : Msg → Result LibError (Unit {0})
  pub account : Bytes → Result LibError Bytes
  pub unmarshal_account : Bytes → Result LibError Account
  pub encode : Tx → Result LibError Bytes
  pub simulate : Bytes → Result LibError ℕ
  pub adjust_gas : ℕ → ℕ
  pub dec_from_str : Bytes → Result LibError Decimal
  pub fee_amount : Decimal → ℕ → ℕ
  pub new_coins : Bytes → ℕ → Result LibError Coins
  pub sign : SignerData → Tx → Result LibError Bytes

module _ (lib : SdkLib) where
  unfoldable pub get_account : Bytes → Result SdkError Account
  get_account bech =
      and_then (map_err library (lib.account bech))
        (λ value. map_err library (lib.unmarshal_account value))

  -- `adj`: the builder's limit stands in for an estimate of nothing.
  unfoldable pub gas_for : TxBuilder → ℕ → ℕ
  gas_for b used = let adj = lib.adjust_gas used in if adj == 0 then b.gas_limit else adj

  unfoldable pub fee_for : TxBuilder → ℕ → Result SdkError Coins
  fee_for b gas =
      and_then (map_err gas_price (parse_gas_price lib.dec_from_str b.min_gas_price))
        (λ price. map_err library (lib.new_coins price.1 (lib.fee_amount price.0 gas)))

  -- The transaction that is simulated: with the default gas and a signature of no bytes.
  unfoldable pub placeholder_tx : TxBuilder → Signer → Account → Msg → Tx
  placeholder_tx b signer acc msg = record {
    message = msg;
    gas_limit = b.gas_limit;
    fee = none;
    signature = some (record { pub_key = signer.pub_key; bytes = []; sequence = acc.sequence });
  }

  unfoldable pub signer_data : TxBuilder → Signer → Account → SignerData
  signer_data b signer acc = record {
    chain_id = b.chain_id;
    account_number = acc.number;
    sequence = acc.sequence;
    pub_key = signer.pub_key;
  }

  unfoldable pub estimate : TxBuilder → Signer → Account → Msg → Result SdkError ℕ
  unfolding placeholder_tx
  estimate b signer acc msg =
      and_then (map_err library (lib.encode (placeholder_tx b signer acc msg)))
        (λ raw. map_err simulate_failed (lib.simulate raw))

  -- The last part of `Build`: the signature is over the transaction with its gas and fee.
  unfoldable pub sign_tx : TxBuilder → Signer → Account → Tx → Result SdkError Tx
  unfolding signer_data
  sign_tx b signer acc tx =
      and_then (map_err sign_failed (lib.sign (signer_data b signer acc) tx)) (λ bytes.
        ok (record tx {
          signature =
              some (record { pub_key = signer.pub_key; bytes = bytes; sequence = acc.sequence });
        }))

  -- From the gas limit on.
  unfoldable pub price_tx : TxBuilder → Signer → Msg → Account → ℕ → Coins → Result SdkError Tx
  price_tx b signer msg acc used coins =
      sign_tx b signer acc
        (record (placeholder_tx b signer acc msg) { gas_limit = gas_for b used; fee = some coins })

  -- From the simulation on.
  unfoldable pub build_for : TxBuilder → Signer → Msg → Account → Result SdkError Tx
  unfolding price_tx gas_for
  build_for b signer msg acc =
      and_then (estimate b signer acc msg)
        (λ used. and_then (fee_for b (gas_for b used)) (price_tx b signer msg acc used))

  unfoldable pub build : TxBuilder → Signer → Msg → Result SdkError Tx
  build b signer msg =
      and_then (map_err library (lib.set_msgs msg))
        (λ _. and_then (get_account signer.address) (build_for b signer msg))
