-- ===== src/Daemon/Root.antt =====
-- What runs before each command of the daemon, cmd/shinzohubd/root.go with the configurations of
-- commands.go, and the start of the registrar, cmd/registrar/main.go.
use shinzohub.Prelude.{
  ℕ, Bytes, Bool, true, false, List, [], ◌∷◌, ◌++◌, ◌≡◌, ◌⊎◌, inl, inr, sym, ap, Result, ok, err,
  and_then, map_err, and_then-ok, ok_injective, branch_cases, Result-cases, codes, if◌then◌else◌,
}
use shinzohub.Sourcehub.State.{LibError}
use shinzohub.Registrar.Client.{AcpGoClient}
use shinzohub.Registrar.Funding.{FundLib, FundError, create_shinzo_acp_go_client}
use shinzohub.Registrar.Funding.Making.{IsMade, create_shinzo_acp_go_client-IsMade}

-- The fields of `client.Context` that the function reads and writes: whether it is offline, and the sign
-- modes of its transactions.
pub record ClientContext : Type 0 where
  pub offline : Bool
  pub sign_modes : List Bytes

-- The values that the two configurations override.
pub record AppConfig : Type 0 where
  pub min_gas_prices : Bytes

pub record CometConfig : Type 0 where
  pub max_txs_bytes : ℕ
  pub max_tx_bytes : ℕ

abbrev pub init_app_config : AppConfig
init_app_config = record { min_gas_prices = codes "0stake" }

abbrev pub init_comet_bft_config : CometConfig
init_comet_bft_config = record { max_txs_bytes = 1048576000; max_tx_bytes = 104857600 }

pub record RootLib : Type 0 where
  pub read_persistent_flags : ClientContext → Result LibError ClientContext
  pub read_client_config : ClientContext → Result LibError ClientContext
  pub default_sign_modes : List Bytes
  pub sign_mode_textual : Bytes
  pub new_tx_config : List Bytes → Result LibError (Unit {0})
  pub set_client_context : ClientContext → Result LibError (Unit {0})
  pub intercept_configs : AppConfig → CometConfig → Result LibError (Unit {0})

-- Online, the transactions may also be signed in the textual mode.
unfoldable pub enable_textual : RootLib → ClientContext → Result LibError ClientContext
enable_textual lib ctx =
    let modes = lib.default_sign_modes ++ lib.sign_mode_textual ∷ [] in
    if ctx.offline
    then ok ctx
    else and_then (lib.new_tx_config modes) (λ u. ok (record ctx { sign_modes = modes }))

unfoldable pub persistent_pre_run : RootLib → ClientContext → Result LibError (Unit {0})
persistent_pre_run lib ctx = and_then (lib.read_persistent_flags ctx) λ flagged.
    and_then (lib.read_client_config flagged) λ configured.
      and_then (enable_textual lib configured) λ ready.
        and_then (lib.set_client_context ready)
          λ u. lib.intercept_configs init_app_config init_comet_bft_config

enable_textual-ok :
    (lib : RootLib) (ctx ready : ClientContext)
    → enable_textual lib ctx ≡ ok ready
    → ((ctx.offline ≡ true) × (ready ≡ ctx))
      ⊎ ((ctx.offline ≡ false)
          × (ready.sign_modes ≡ lib.default_sign_modes ++ lib.sign_mode_textual ∷ []))
unfolding enable_textual
enable_textual-ok lib ctx ready h =
    let modes = lib.default_sign_modes ++ lib.sign_mode_textual ∷ [] in
    elim (branch_cases ctx.offline _ _ _ h) [
      | inl (e, q) ↦ inl (e, sym (ok_injective _ _ q))
      | inr (e, q) ↦
          let (u, p, w) = and_then-ok (lib.new_tx_config modes) _ ready q in
          inr (e, ap (λ c. c.sign_modes) (sym (ok_injective _ _ w)))
    ]

-- A command runs only after a context was set that has the sign modes of the client's configuration if
-- it is offline, and otherwise the default ones and the textual one, and after the configurations were
-- read.
pub persistent_pre_run-ok :
    (lib : RootLib) (ctx : ClientContext)
    → persistent_pre_run lib ctx ≡ ok tt
    → (configured : ClientContext) × (ready : ClientContext) × (lib.set_client_context ready
        ≡ ok tt)
      × (lib.intercept_configs init_app_config init_comet_bft_config ≡ ok tt)
      × (((configured.offline ≡ true) × (ready ≡ configured))
          ⊎ ((configured.offline ≡ false)
              × (ready.sign_modes ≡ lib.default_sign_modes ++ lib.sign_mode_textual ∷ [])))
unfolding persistent_pre_run
persistent_pre_run-ok lib ctx h =
    let (flagged, p₁, h₁) = and_then-ok (lib.read_persistent_flags ctx) _ tt h in
    let (configured, p₂, h₂) = and_then-ok (lib.read_client_config flagged) _ tt h₁ in
    let (ready, p₃, h₃) = and_then-ok (enable_textual lib configured) _ tt h₂ in
    let (u, p₄, h₄) = and_then-ok (lib.set_client_context ready) _ tt h₃ in
    (configured, ready, p₄, h₄, enable_textual-ok lib configured ready p₃)

-- How the registrar ends: its client could not be made, or its server failed.
pub data RegistrarError : Type 0 where
  client_failed : FundError → RegistrarError
  server_failed : LibError → RegistrarError

-- `hex_key` and `policy_id` come from the environment, into which the file .env is loaded first;
-- `serve_on` is the service's server for a client at an address.
unfoldable pub registrar_main :
    FundLib
    → (Bytes → Result LibError Bytes)
    → (Bytes → Bytes)
    → Bytes
    → Bytes
    → (AcpGoClient → Bytes → Result LibError (Unit {0}))
    → Result RegistrarError (Unit {0})
registrar_main lib decode_hex address_of policy_id hex_key serve_on =
    and_then
      (map_err client_failed (
        create_shinzo_acp_go_client lib decode_hex address_of policy_id (codes "sourcehub-dev")
          hex_key))
      (λ client. map_err server_failed (serve_on client (codes ":8081")))

-- The registrar either ends because its client cannot be made, or serves, and ends as its server does,
-- with a client that has a policy's id that is not empty, signs with the address of the environment's
-- key and sends to the chain of the development's SourceHub.
pub registrar_main_cases :
    (lib : FundLib) (decode_hex : Bytes → Result LibError Bytes) (address_of : Bytes → Bytes)
    (policy_id hex_key : Bytes) (serve_on : AcpGoClient → Bytes → Result LibError (Unit {0}))
    → let main = registrar_main lib decode_hex address_of policy_id hex_key serve_on in
      ((e : FundError) × (main ≡ err (client_failed e)))
      ⊎ ((client : AcpGoClient) × (key : Bytes) × (decode_hex hex_key ≡ ok key)
          × IsMade policy_id (codes "sourcehub-dev") (address_of key) client
          × (main ≡ map_err server_failed (serve_on client (codes ":8081"))))
unfolding registrar_main
registrar_main_cases lib decode_hex address_of policy_id hex_key serve_on =
    let chain_id = codes "sourcehub-dev" in
    elim (Result-cases
      (create_shinzo_acp_go_client lib decode_hex address_of policy_id chain_id hex_key)) [
        | inl (e, p) ↦ inl (e, rw p)
        | inr (client, p) ↦
            let (key, d, m) =
              (create_shinzo_acp_go_client-IsMade lib decode_hex address_of policy_id chain_id
                  hex_key).0
                client p in
            inr (client, key, d, m, rw p)
      ]
