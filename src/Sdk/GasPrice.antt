-- ===== src/Sdk/GasPrice.antt =====
-- `parseGasPrice` of sdk/txbuilder.go: a decimal number, and the name of a coin behind it.
use shinzohub.Prelude.{
  ℕ, Bytes, Bool, true, [], ◌++◌, Result, ok, err, and_then, map_err, is_empty, leb, ◌==◌, ◌&&◌,
  ◌||◌, if◌then◌else◌, span, Stops, All, ◌≡◌, ◌≢◌,
}
use shinzohub.Sourcehub.State.{LibError}

pub data GasPriceError : Type 0 where
  invalid_gas_price : Bytes → GasPriceError
  invalid_decimal : LibError → GasPriceError

-- The characters that the loop passes over.
unfoldable pub is_price_char : ℕ → Bool
is_price_char c = (leb b'0' c && leb c b'9') || (c == b'.')

-- What follows the loop, with `number` and `denom` for `gp[:i]` and `gp[i:]`. `Decimal` and `dec_from_str`
-- are `LegacyDec` and `LegacyNewDecFromStr`.
unfoldable pub read_price :
    {Decimal : Type 0}
    → (Bytes → Result LibError Decimal)
    → Bytes
    → Bytes
    → Bytes
    → Result GasPriceError (Decimal × Bytes)
read_price dec_from_str gp number denom =
    if is_empty number || is_empty denom
    then err (invalid_gas_price gp)
    else and_then (map_err invalid_decimal (dec_from_str number)) (λ dec. ok (dec, denom))

unfoldable pub parse_gas_price :
    {Decimal : Type 0}
    → (Bytes → Result LibError Decimal)
    → Bytes
    → Result GasPriceError (Decimal × Bytes)
unfolding read_price
parse_gas_price dec_from_str gp =
    let cut = span is_price_char gp in read_price dec_from_str gp cut.0 cut.1

-- The text is a number's characters and then a coin, which starts with no such character.
pub IsGasPrice : Bytes → Bytes → Bytes → Type 0
IsGasPrice gp number denom =
    (gp ≡ number ++ denom)
    × (number ≢ [])
    × (denom ≢ [])
    × All (λ c. is_price_char c ≡ true) number
    × Stops is_price_char denom
