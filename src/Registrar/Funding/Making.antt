-- ===== src/Registrar/Funding/Making.antt =====
-- What a client that is made has (pkg/sourcehub/acpGoClient.go, shinzoAcpGoClient.go and tx_signer.go).
use shinzohub.Prelude.{
  Bytes, [], some, ◌≡◌, ◌≢◌, sym, ap, subst, Result, ok, and_then-ok, guard-ok, is_empty, codes,
  map_err-ok, ok_injective, map_err,
}
use shinzohub.Sourcehub.State.{LibError}
use shinzohub.Registrar.Client.{AcpGoClient, new_api_signer_from_env, missing_api_signer}
use shinzohub.Registrar.Funding.{
  FundLib, builder_config, no_policy_id, acp_client_failed, signer_failed, create_acp_go_client,
  create_from_environment_variable, create_from_keychain, create_shinzo_acp_go_client,
  create_with_validator_sender,
}

-- A client that is made has the policy's id of the environment, which is not empty, the chain and the
-- signer that it was asked for.
pub record IsMade (policy_id chain_id signer : Bytes) (client : AcpGoClient) : Type 0 where
  pub policy : client.policy_id ≡ policy_id
  pub not_empty : policy_id ≢ []
  pub chain : client.chain_id ≡ chain_id
  pub signs : client.signer ≡ signer

create_acp_go_client-IsMade :
    (lib : FundLib) (policy_id chain_id signer : Bytes) (client : AcpGoClient)
    → create_acp_go_client lib policy_id chain_id signer ≡ ok client
    → IsMade policy_id chain_id signer client
unfolding create_acp_go_client
create_acp_go_client-IsMade lib policy_id chain_id signer client h =
    let (sdk, p₁, h₁) = and_then-ok (map_err _ lib.new_client) _ client h in
    let (b, p₂, h₂) =
      and_then-ok (map_err _ (lib.new_tx_builder (builder_config chain_id 5000 5000000))) _ client
        h₁ in
    let (full, h₃) = guard-ok (is_empty policy_id) no_policy_id _ client h₂ in
    let (actor, p₃, h₄) = and_then-ok (map_err _ lib.produce_did) _ client h₃ in
    record {
      policy = ap (λ c. c.policy_id) (sym (ok_injective _ _ h₄));
      not_empty = λ e. cc (full, ap is_empty e);
      chain = ap (λ c. c.chain_id) (sym (ok_injective _ _ h₄));
      signs = ap (λ c. c.signer) (sym (ok_injective _ _ h₄));
    }

-- A client made from the environment has a policy's id that is not empty, and signs with the address
-- of the key in the environment; one made for the validator signs with the keyring's key of that name.
pub create_shinzo_acp_go_client-IsMade :
    (lib : FundLib) (decode_hex : Bytes → Result LibError Bytes) (address_of : Bytes → Bytes)
    (policy_id chain_id hex_key : Bytes)
    → ((client : AcpGoClient)
        → create_shinzo_acp_go_client lib decode_hex address_of policy_id chain_id hex_key
          ≡ ok client
        → (key : Bytes) × (decode_hex hex_key ≡ ok key)
          × IsMade policy_id chain_id (address_of key) client)
      × ((client : AcpGoClient)
          → create_with_validator_sender lib policy_id chain_id ≡ ok client
          → (keyring : Bytes) × (signer : Bytes) × (lib.keyring ≡ ok keyring)
            × (lib.signer_from_keyring (some keyring) (codes "validator") ≡ ok signer)
            × IsMade policy_id chain_id signer client)
unfolding create_shinzo_acp_go_client create_with_validator_sender create_from_environment_variable
    create_from_keychain new_api_signer_from_env
create_shinzo_acp_go_client-IsMade lib decode_hex address_of policy_id chain_id hex_key = (
  λ client h.
      let made =
        map_err-ok acp_client_failed
          (create_from_environment_variable lib decode_hex address_of policy_id chain_id hex_key)
          client h in
      let (signer, p, q) =
        and_then-ok (map_err signer_failed (new_api_signer_from_env decode_hex address_of hex_key))
          _ client made in
      let (full, r) =
        guard-ok (is_empty hex_key) missing_api_signer _ signer
          (map_err-ok signer_failed _ signer p) in
      let (key, d, e) = and_then-ok (map_err _ (decode_hex hex_key)) _ signer r in
      (
        key,
        map_err-ok _ _ key d,
        subst (λ x. IsMade policy_id chain_id x client) (sym (ok_injective _ _ e))
            (create_acp_go_client-IsMade lib policy_id chain_id signer client q),
      ),
  λ client h.
      let made =
        map_err-ok acp_client_failed
          (create_from_keychain lib policy_id chain_id (codes "validator")) client h in
      let (keyring, p, q) = and_then-ok (map_err _ lib.keyring) _ client made in
      let (signer, d, e) =
        and_then-ok (map_err _ (lib.signer_from_keyring (some keyring) (codes "validator"))) _
          client q in
      (
        keyring,
        signer,
        map_err-ok _ _ keyring p,
        map_err-ok _ _ signer d,
        create_acp_go_client-IsMade lib policy_id chain_id signer client e,
      ),
)
