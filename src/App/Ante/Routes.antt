-- ===== src/App/Ante/Routes.antt =====
-- Which chain of decorators a transaction runs through in app/ante/ante.go.
use shinzohub.Prelude.{
  subst, Bytes, Bool, true, false, Option, none, some, List, [], ◌∷◌, ok, same, same→eq, Bool-cases,
  Any, ◌≡◌, ◌↔◌, ◌⊎◌, inl, inr, arith,
}
use shinzohub.App.Ante.{
  Tx, Decorator, sig_verification, ethereum_tx, dynamic_fee_tx, route_extension, route_plain,
  new_ante_handler, new_cosmos_ante_handler, new_mono_evm_ante_handler, HandlerOptions,
  validate_options,
}

pub IsIn : Decorator → List Decorator → Type 0
IsIn d ds = Any (λ e. d ≡ e) ds

cosmos_verifies : IsIn sig_verification new_cosmos_ante_handler
unfolding IsIn new_cosmos_ante_handler
cosmos_verifies = ground arith

abbrev Verifies : Option (List Bytes) → List Decorator → Type 0
Verifies options ds =
    IsIn sig_verification ds
    ⊎ ((rest : List Bytes) × (options ≡ some (ethereum_tx ∷ rest))
        × (ds ≡ new_mono_evm_ante_handler))

plain-Verifies :
    (options : Option (List Bytes)) (is_tx : Bool) (ds : List Decorator)
    → route_plain is_tx ≡ ok ds
    → Verifies options ds
unfolding route_plain
plain-Verifies options true ds h =
    inl (subst (IsIn sig_verification) (ground (arith, h)) cosmos_verifies)
plain-Verifies options false ds h = absurd (cc)

extension-Verifies :
    (url : Bytes) (rest : List Bytes) (ds : List Decorator)
    → route_extension url ≡ ok ds
    → Verifies (some (url ∷ rest)) ds
unfolding route_extension
extension-Verifies url rest ds = elim (Bool-cases (same url ethereum_tx)) [
  | inl e ↦ rw e (λ h. inr (rest, cc (same→eq url ethereum_tx e), ground arith))
  | inr e ↦ rw e (elim (Bool-cases (same url dynamic_fee_tx)) [
    | inl f ↦ rw f (λ h. inl (subst (IsIn sig_verification) (ground (arith, h)) cosmos_verifies))
    | inr f ↦ rw f (λ h. absurd (cc))
  ])
]

any-Verifies :
    (options : Option (List Bytes)) (is_tx : Bool) (ds : List Decorator)
    → new_ante_handler (record { extension_options = options; is_sdk_tx = is_tx }) ≡ ok ds
    → Verifies options ds
unfolding new_ante_handler
any-Verifies none is_tx ds h = plain-Verifies none is_tx ds h
any-Verifies (some []) is_tx ds h = plain-Verifies (some []) is_tx ds h
any-Verifies (some (url ∷ rest)) is_tx ds h = extension-Verifies url rest ds h

-- A transaction is handled either by a chain that verifies its signatures, or by the one of the EVM,
-- and the latter only if its first extension option is the one of Ethereum transactions.
pub new_ante_handler_cases :
    (tx : Tx) (ds : List Decorator)
    → new_ante_handler tx ≡ ok ds
    → IsIn sig_verification ds
      ⊎ ((rest : List Bytes) × (tx.extension_options ≡ some (ethereum_tx ∷ rest))
          × (ds ≡ new_mono_evm_ante_handler))
new_ante_handler_cases tx ds h = any-Verifies tx.extension_options tx.is_sdk_tx ds h

-- The options are accepted just when none of the nine that are checked is missing.
pub validate_options_iff :
    (o : HandlerOptions)
    → (validate_options o ≡ ok tt) ↔ (
        (o.cdc ≡ true)
        × (o.account_keeper ≡ true)
        × (o.bank_keeper ≡ true)
        × (o.sig_gas_consumer ≡ true)
        × (o.sign_mode_handler ≡ true)
        × (o.circuit_keeper ≡ true)
        × (o.tx_fee_checker ≡ true)
        × (o.fee_market_keeper ≡ true)
        × (o.evm_keeper ≡ true))
unfolding validate_options
validate_options_iff o = ground arith
