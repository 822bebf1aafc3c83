-- ===== src/Registrar/Funding.antt =====
-- The making of a client and `FundAccount` and `GetBalanceInUOpen` of pkg/sourcehub/acpGoClient.go. The
-- keyring, SourceHub's SDK and the bank module's messages are code of other repositories.
pub mod Outcome
pub mod Making
use shinzohub.Prelude.{
  ℕ, Bytes, Bool, true, false, Option, none, some, List, [], ◌∷◌, ◌++◌, Result, ok, err, and_then,
  map_err, Exec, pure, fail, lift, ◌>>=◌, ◌>>◌, codes, is_empty, if◌then◌else◌, ltb, ◌^◌,
}
use shinzohub.Sourcehub.State.{LibError}
use shinzohub.Registrar.Client.{
  Net, N, ClientError, AcpActor, AcpGoClient, missing_policy_id, new_api_signer_from_env,
  missing_api_signer,
}

-- What a transaction builder is made with: chain, fee and gas limit.
pub data BuilderConfig : Type 0 where
  builder_config : Bytes → ℕ → ℕ → BuilderConfig

-- A keyring by its handle.
abbrev pub Keyring : Type 0
Keyring = Bytes

-- `banktypes.NewMsgSend(from, to, coins)`
pub data MsgSend : Type 0 where
  msg_send : Bytes → Bytes → List (Bytes × ℕ) → MsgSend

-- The signer of a keyring's key may be asked for with no keyring. `new_coins` drops coins of amount 0.
pub record FundLib : Type 0 where
  pub keyring : Result LibError Keyring
  pub signer_from_keyring : Option Keyring → Bytes → Result LibError Bytes
  pub new_client : Result LibError (Unit {0})
  pub acc_from_bech32 : Bytes → Result LibError Bytes
  pub new_tx_builder : BuilderConfig → Result LibError (Unit {0})
  pub new_coins : List (Bytes × ℕ) → List (Bytes × ℕ)
  pub build_from_msgs : BuilderConfig → Bytes → MsgSend → Result LibError Bytes
  pub broadcast : Bytes → Result LibError Bytes
  pub await : Bytes → Result LibError (Option LibError)
  pub produce_did : Result LibError AcpActor
  -- account, denomination
  pub balance : Bytes → Bytes → Result LibError ℕ

pub data FundError : Type 0 where
  no_keyring no_signer no_client bad_funder bad_target no_builder : LibError → FundError
  not_built not_sent not_awaited not_executed no_balance no_did : LibError → FundError
  no_policy_id : FundError
  signer_failed : ClientError → FundError
  negative_coin : FundError
  acp_client_failed : FundError → FundError

abbrev pub F : Type 0 → Type 0
F A = Exec Net FundError A

abbrev pub uopen : Bytes
uopen = codes "uopen"

-- `NewInt64Coin("uopen", int64(amount))`: the conversion makes a `uint64` of 2 ^ 63 or more negative, and
-- a negative coin panics.
unfoldable pub uopen_coin : ℕ → Result FundError (Bytes × ℕ)
uopen_coin amount = if ltb amount (2 ^ 63) then ok (uopen, amount) else err negative_coin

-- `keyRing, err := getKeyring()`, whose error is not looked at.
abbrev pub keyring_or_nil : Result LibError Keyring → Option Keyring
keyring_or_nil (ok k) = some k
keyring_or_nil (err e) = none

unfoldable pub send_funds : FundLib → Bytes → F (Unit {0})
send_funds lib tx net = elim (lib.broadcast tx) [
  | err e ↦ (err (not_sent e), net)
  | ok hash ↦ (
    and_then (map_err not_awaited (lib.await hash))
        (λ result. elim result [ none ↦ ok tt | some e ↦ err (not_executed e) ]),
    record net { broadcasts = net.broadcasts ++ tx ∷ [] },
  )
]

abbrev pub funding_config : AcpGoClient → BuilderConfig
funding_config client = builder_config client.chain_id 300 300000

-- What comes before the broadcast, and sends nothing.
unfoldable pub funding_tx : FundLib → AcpGoClient → Bytes → ℕ → Result FundError Bytes
funding_tx lib client funder amount =
    and_then (map_err no_signer (lib.signer_from_keyring (keyring_or_nil lib.keyring) funder))
      λ signer. and_then (map_err no_client lib.new_client) λ sdk.
        and_then (map_err bad_funder (lib.acc_from_bech32 signer)) λ source.
          and_then (map_err bad_target (lib.acc_from_bech32 client.signer)) λ target.
            and_then (map_err no_builder (lib.new_tx_builder (funding_config client))) λ builder.
              and_then (uopen_coin amount) λ coin. map_err not_built (
                lib.build_from_msgs (funding_config client) signer
                  (msg_send source target (lib.new_coins (coin ∷ []))))

unfoldable pub fund_account : FundLib → AcpGoClient → Bytes → ℕ → F (Unit {0})
fund_account lib client funder amount =
    lift (funding_tx lib client funder amount) >>= send_funds lib

unfoldable pub get_balance_in_uopen : FundLib → AcpGoClient → Result FundError ℕ
get_balance_in_uopen lib client = map_err no_balance (lib.balance client.signer uopen)

-- `policy_id` is the variable POLICY_ID of the environment, empty if it is missing.
unfoldable pub create_acp_go_client : FundLib → Bytes → Bytes → Bytes → Result FundError AcpGoClient
create_acp_go_client lib policy_id chain_id signer =
    and_then (map_err no_client lib.new_client) λ sdk.
      and_then (map_err no_builder (lib.new_tx_builder (builder_config chain_id 5000 5000000))) λ b.
        if is_empty policy_id
        then err no_policy_id
        else and_then (map_err no_did lib.produce_did) λ actor.
          ok (record { signer = signer; actor = actor; policy_id = policy_id; chain_id = chain_id })

unfoldable pub create_from_environment_variable :
    FundLib
    → (Bytes → Result LibError Bytes)
    → (Bytes → Bytes)
    → Bytes
    → Bytes
    → Bytes
    → Result FundError AcpGoClient
create_from_environment_variable lib decode_hex address_of policy_id chain_id hex_key =
    and_then (map_err signer_failed (new_api_signer_from_env decode_hex address_of hex_key))
      (create_acp_go_client lib policy_id chain_id)

unfoldable pub create_from_keychain : FundLib → Bytes → Bytes → Bytes → Result FundError AcpGoClient
create_from_keychain lib policy_id chain_id key =
    and_then (map_err no_keyring lib.keyring) (λ keyring.
      and_then (map_err no_signer (lib.signer_from_keyring (some keyring) key))
        (create_acp_go_client lib policy_id chain_id))

-- The clients of pkg/sourcehub/shinzoAcpGoClient.go, which only hold the client above.
unfoldable pub create_shinzo_acp_go_client :
    FundLib
    → (Bytes → Result LibError Bytes)
    → (Bytes → Bytes)
    → Bytes
    → Bytes
    → Bytes
    → Result FundError AcpGoClient
create_shinzo_acp_go_client lib decode_hex address_of policy_id chain_id hex_key =
    map_err acp_client_failed
      (create_from_environment_variable lib decode_hex address_of policy_id chain_id hex_key)

unfoldable pub create_with_validator_sender : FundLib → Bytes → Bytes → Result FundError AcpGoClient
create_with_validator_sender lib policy_id chain_id =
    map_err acp_client_failed (create_from_keychain lib policy_id chain_id (codes "validator"))
