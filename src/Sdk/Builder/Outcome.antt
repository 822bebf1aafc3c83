-- ===== src/Sdk/Builder/Outcome.antt =====
-- What the transactions of `Build` in sdk/txbuilder.go hold.
use shinzohub.Prelude.{
  subst, sym, and_then-ok, map_err-ok, ℕ, Bytes, some, none, [], ok, and_then, map_err, ◌≡◌, ◌≢◌,
  ◌⊎◌, inl, inr, Bool-cases, ◌==◌, refl, arith,
}
use shinzohub.Sourcehub.Server.{Msg}
use shinzohub.Sdk.GasPrice.{parse_gas_price}
use shinzohub.Sdk.Builder.{
  Coins, TxBuilder, SdkLib, SdkError, Signer, Tx, Account, build, get_account, gas_for, fee_for,
  placeholder_tx, signer_data, estimate, sign_tx, build_for, price_tx,
}

-- The transaction was built for the account `acc`, from an estimate of `used` gas for the transaction
-- with the builder's own limit, no fee and an empty signature.
pub record IsBuilt (lib : SdkLib) (b : TxBuilder) (signer : Signer) (msg : Msg) (tx : Tx)
    : Type 0 where
  pub accepted : lib.set_msgs msg ≡ ok tt
  pub value : Bytes
  pub found : lib.account signer.address ≡ ok value
  pub acc : Account
  pub decoded : lib.unmarshal_account value ≡ ok acc
  pub raw : Bytes
  pub encoded :
      lib.encode (record {
        message = msg;
        gas_limit = b.gas_limit;
        fee = none;
        signature = some (record { pub_key = signer.pub_key; bytes = []; sequence = acc.sequence });
      })
      ≡ ok raw
  pub used : ℕ
  pub estimated : lib.simulate raw ≡ ok used
  pub carries : tx.message ≡ msg
  pub gas :
      ((lib.adjust_gas used ≡ 0) × (tx.gas_limit ≡ b.gas_limit))
      ⊎ ((lib.adjust_gas used ≢ 0) × (tx.gas_limit ≡ lib.adjust_gas used))
  pub price : lib.Decimal
  pub denom : Bytes
  pub priced : parse_gas_price lib.dec_from_str b.min_gas_price ≡ ok (price, denom)
  pub coins : Coins
  pub charged : lib.new_coins denom (lib.fee_amount price tx.gas_limit) ≡ ok coins
  pub paid : tx.fee ≡ some coins
  pub bytes : Bytes
  pub signed :
      lib.sign
        (record {
          chain_id = b.chain_id;
          account_number = acc.number;
          sequence = acc.sequence;
          pub_key = signer.pub_key;
        })
        (record {
          message = msg;
          gas_limit = tx.gas_limit;
          fee = some coins;
          signature =
              some (record { pub_key = signer.pub_key; bytes = []; sequence = acc.sequence });
        })
      ≡ ok bytes
  pub signature :
      tx.signature
      ≡ some (record { pub_key = signer.pub_key; bytes = bytes; sequence = acc.sequence })

get_account-ok :
    (lib : SdkLib) (bech : Bytes) (acc : Account)
    → get_account lib bech ≡ ok acc
    → (value : Bytes) × (lib.account bech ≡ ok value) × (lib.unmarshal_account value ≡ ok acc)
unfolding get_account
get_account-ok lib bech acc h =
    let (value, p, q) = and_then-ok _ _ acc h in
    (value, map_err-ok SdkError.library _ value p, map_err-ok SdkError.library _ acc q)

estimate-ok :
    (lib : SdkLib) (b : TxBuilder) (signer : Signer) (acc : Account) (msg : Msg) (used : ℕ)
    → estimate lib b signer acc msg ≡ ok used
    → (raw : Bytes) × (lib.encode (placeholder_tx lib b signer acc msg) ≡ ok raw)
      × (lib.simulate raw ≡ ok used)
unfolding estimate
estimate-ok lib b signer acc msg used h =
    let (raw, p, q) = and_then-ok _ _ used h in
    (raw, map_err-ok SdkError.library _ raw p, map_err-ok SdkError.simulate_failed _ used q)

fee_for-ok :
    (lib : SdkLib) (b : TxBuilder) (gas : ℕ) (coins : Coins)
    → fee_for lib b gas ≡ ok coins
    → (price : lib.Decimal × Bytes) × (parse_gas_price lib.dec_from_str b.min_gas_price ≡ ok price)
      × (lib.new_coins price.1 (lib.fee_amount price.0 gas) ≡ ok coins)
unfolding fee_for
fee_for-ok lib b gas coins h =
    let (price, p, q) = and_then-ok _ _ coins h in
    (price, map_err-ok SdkError.gas_price _ price p, map_err-ok SdkError.library _ coins q)

gas_for_cases :
    (lib : SdkLib) (b : TxBuilder) (used : ℕ)
    → ((lib.adjust_gas used ≡ 0) × (gas_for lib b used ≡ b.gas_limit))
      ⊎ ((lib.adjust_gas used ≢ 0) × (gas_for lib b used ≡ lib.adjust_gas used))
unfolding gas_for
gas_for_cases lib b used = elim (Bool-cases (lib.adjust_gas used == 0)) [
  | inl e ↦ inl (ground arith, rw e)
  | inr e ↦ inr ((λ z. absurd (ground arith)), rw e)
]

sign_tx-ok :
    (lib : SdkLib) (b : TxBuilder) (signer : Signer) (acc : Account) (tx out : Tx)
    → sign_tx lib b signer acc tx ≡ ok out
    → (bytes : Bytes) × (lib.sign (signer_data lib b signer acc) tx ≡ ok bytes)
      × (out ≡ record tx {
        signature =
            some (record { pub_key = signer.pub_key; bytes = bytes; sequence = acc.sequence });
      })
unfolding sign_tx
sign_tx-ok lib b signer acc tx out h =
    let (bytes, p, q) = and_then-ok _ _ out h in
    (bytes, map_err-ok SdkError.sign_failed _ bytes p, ground (arith, q))

-- A transaction that `Build` returns carries the message, the adjusted gas of the simulation or, when
-- this is 0, the builder's limit, the fee for just that gas at the builder's price, and a signature
-- made for the builder's chain and the account's number and sequence over that gas and that fee.
pub build-IsBuilt :
    (lib : SdkLib) (b : TxBuilder) (signer : Signer) (msg : Msg) (tx : Tx)
    → build lib b signer msg ≡ ok tx
    → IsBuilt lib b signer msg tx
unfolding build build_for price_tx placeholder_tx signer_data
build-IsBuilt lib b signer msg tx h =
    let (u, valid, h₁) =
      and_then-ok (map_err SdkError.library (lib.set_msgs msg))
        (λ _. and_then (get_account lib signer.address) (build_for lib b signer msg)) tx h in
    let (acc, for_account, h₂) =
      and_then-ok (get_account lib signer.address) (build_for lib b signer msg) tx h₁ in
    let (used, estimated, h₃) =
      and_then-ok (estimate lib b signer acc msg)
        (λ u. and_then (fee_for lib b (gas_for lib b u)) (price_tx lib b signer msg acc u)) tx h₂ in
    let (coins, priced, h₄) =
      and_then-ok (fee_for lib b (gas_for lib b used)) (price_tx lib b signer msg acc used) tx h₃ in
    let (bytes, signed, out) =
      sign_tx-ok lib b signer acc
        (record (placeholder_tx lib b signer acc msg) {
          gas_limit = gas_for lib b used;
          fee = some coins;
        })
        tx h₄ in
    let account = get_account-ok lib signer.address acc for_account in
    let simulated = estimate-ok lib b signer acc msg used estimated in
    let fee = fee_for-ok lib b (gas_for lib b used) coins priced in
    subst (IsBuilt lib b signer msg) (sym out) (record {
      accepted = map_err-ok SdkError.library _ u valid;
      value = account.0;
      found = account.1;
      acc = acc;
      decoded = account.2;
      raw = simulated.0;
      encoded = simulated.1;
      used = used;
      estimated = simulated.2;
      carries = refl;
      gas = gas_for_cases lib b used;
      price = fee.0.0;
      denom = fee.0.1;
      priced = fee.1;
      coins = coins;
      charged = fee.2;
      paid = refl;
      bytes = bytes;
      signed = signed;
      signature = refl;
    })
