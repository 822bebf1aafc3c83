-- ===== src/App/Ante.antt =====
-- The routing of a transaction to its ante handler, app/ante/ante.go, ante_cosmos.go and ante_evm.go,
-- and the check of the handler's options, handler_options.go.
pub mod Routes
use shinzohub.Prelude.{
  Bytes, Bool, true, false, Option, none, some, List, [], ◌∷◌, Result, ok, err, and_then, check,
  codes, same, ◌||◌, if◌then◌else◌,
}

-- What the application puts into the handlers: which options are not nil.
pub record HandlerOptions : Type 0 where
  pub cdc : Bool
  pub account_keeper : Bool
  pub bank_keeper : Bool
  pub sig_gas_consumer : Bool
  pub sign_mode_handler : Bool
  pub circuit_keeper : Bool
  pub tx_fee_checker : Bool
  pub fee_market_keeper : Bool
  pub evm_keeper : Bool

pub data AnteError : Type 0 where
  option_required : Bytes → AnteError
  unknown_extension_options : Bytes → AnteError
  invalid_transaction_type : AnteError

unfoldable pub validate_options : HandlerOptions → Result AnteError (Unit {0})
validate_options o = and_then (check o.cdc (option_required (codes "codec"))) (λ _.
    and_then (check o.account_keeper (option_required (codes "account keeper"))) (λ _.
      and_then (check o.bank_keeper (option_required (codes "bank keeper"))) (λ _.
        and_then (check o.sig_gas_consumer (option_required (codes "signature gas consumer"))) (λ _.
          and_then (check o.sign_mode_handler (option_required (codes "sign mode handler"))) (λ _.
            and_then (check o.circuit_keeper (option_required (codes "circuit keeper"))) (λ _.
              and_then (check o.tx_fee_checker (option_required (codes "tx fee checker"))) (λ _.
                and_then (check o.fee_market_keeper (option_required (codes "fee market keeper")))
                  (λ _. check o.evm_keeper (option_required (codes "evm keeper"))))))))))

-- A transaction: the type URLs of its extension options, if it can have some, and whether it is an
-- `sdk.Tx`.
pub record Tx : Type 0 where
  pub extension_options : Option (List Bytes)
  pub is_sdk_tx : Bool

-- The decorators of the two chains, which are library code.
pub data Decorator : Type 0 where
  evm_mono : Decorator
  reject_messages authz_limiter set_up_context circuit_breaker extension_options_decorator :
      Decorator
  validate_basic tx_timeout_height validate_memo min_gas_price consume_gas_for_tx_size : Decorator
  deduct_fee set_pub_key validate_sig_count sig_gas_consume sig_verification : Decorator
  increment_sequence redundant_relay gas_wanted : Decorator

unfoldable pub new_cosmos_ante_handler : List Decorator
new_cosmos_ante_handler =
    reject_messages ∷ authz_limiter ∷ set_up_context ∷ circuit_breaker ∷ extension_options_decorator
    ∷ validate_basic ∷ tx_timeout_height ∷ validate_memo ∷ min_gas_price ∷ consume_gas_for_tx_size
    ∷ deduct_fee ∷ set_pub_key ∷ validate_sig_count ∷ sig_gas_consume ∷ sig_verification
    ∷ increment_sequence ∷ redundant_relay ∷ gas_wanted ∷ []

unfoldable pub new_mono_evm_ante_handler : List Decorator
new_mono_evm_ante_handler = evm_mono ∷ []

abbrev pub ethereum_tx : Bytes
ethereum_tx = codes "/cosmos.evm.vm.v1.ExtensionOptionsEthereumTx"

abbrev pub dynamic_fee_tx : Bytes
dynamic_fee_tx = codes "/cosmos.evm.vm.v1.ExtensionOptionDynamicFeeTx"

-- The `switch` on the first option's type URL.
unfoldable pub route_extension : Bytes → Result AnteError (List Decorator)
route_extension url =
    if same url ethereum_tx
    then ok new_mono_evm_ante_handler
    else if same url dynamic_fee_tx
    then ok new_cosmos_ante_handler
    else err (unknown_extension_options url)

unfoldable pub route_plain : Bool → Result AnteError (List Decorator)
route_plain true = ok new_cosmos_ante_handler
route_plain false = err invalid_transaction_type

unfoldable pub new_ante_handler : Tx → Result AnteError (List Decorator)
new_ante_handler tx = elim tx.extension_options [
  | none ↦ route_plain tx.is_sdk_tx
  | some [] ↦ route_plain tx.is_sdk_tx
  | some (url ∷ urls) ↦ route_extension url
]
