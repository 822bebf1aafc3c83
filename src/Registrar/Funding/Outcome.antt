-- ===== src/Registrar/Funding/Outcome.antt =====
-- What `FundAccount` of pkg/sourcehub/acpGoClient.go has sent.
use shinzohub.Prelude.{
  ℕ, Bytes, none, some, [], ◌∷◌, ◌++◌, ◌≡◌, ◌<◌, ◌↔◌, ◌⊎◌, inl, inr, refl, sym, ap, ◌∙◌,
  Result-cases, Fails, ok, and_then-ok, map_err-ok, ok_injective, map_err, ◌^◌, ltb, arith,
  Bool-cases,
}
use shinzohub.Registrar.Client.{Net, AcpGoClient}
use shinzohub.Registrar.Funding.{
  FundLib, keyring_or_nil, uopen, uopen_coin, msg_send, funding_config, funding_tx, send_funds,
  fund_account, not_sent,
}

-- The transaction that sends the funds.
pub record IsFundingTx (lib : FundLib) (client : AcpGoClient) (funder : Bytes) (amount : ℕ)
    (tx : Bytes) : Type 0 where
  pub signer : Bytes
  pub source : Bytes
  pub target : Bytes
  pub signed_by : lib.signer_from_keyring (keyring_or_nil lib.keyring) funder ≡ ok signer
  pub from_funder : lib.acc_from_bech32 signer ≡ ok source
  pub to_client : lib.acc_from_bech32 client.signer ≡ ok target
  pub fits : amount < 2 ^ 63
  pub built :
      lib.build_from_msgs
        (funding_config client)
        signer
        (msg_send source target (lib.new_coins ((uopen, amount) ∷ [])))
      ≡ ok tx

uopen_coin-ok :
    (amount : ℕ) (coin : Bytes × ℕ)
    → uopen_coin amount ≡ ok coin
    → (amount < 2 ^ 63) × (coin ≡ (uopen, amount))
unfolding uopen_coin
uopen_coin-ok amount coin h = elim (Bool-cases (ltb amount (2 ^ 63))) [
  | inl e ↦ (ground (arith, e), sym (ok_injective _ _ (rw e at h)))
  | inr e ↦ absurd (cc (rw e at h))
]

funding_tx-IsFundingTx :
    (lib : FundLib) (client : AcpGoClient) (funder : Bytes) (amount : ℕ) (tx : Bytes)
    → funding_tx lib client funder amount ≡ ok tx
    → IsFundingTx lib client funder amount tx
unfolding funding_tx
funding_tx-IsFundingTx lib client funder amount tx h =
    let (signer, p₁, h₁) =
      and_then-ok (map_err _ (lib.signer_from_keyring (keyring_or_nil lib.keyring) funder)) _ tx
        h in
    let (sdk, p₂, h₂) = and_then-ok (map_err _ lib.new_client) _ tx h₁ in
    let (source, p₃, h₃) = and_then-ok (map_err _ (lib.acc_from_bech32 signer)) _ tx h₂ in
    let (target, p₄, h₄) = and_then-ok (map_err _ (lib.acc_from_bech32 client.signer)) _ tx h₃ in
    let (builder, p₅, h₅) =
      and_then-ok (map_err _ (lib.new_tx_builder (funding_config client))) _ tx h₄ in
    let (coin, p₆, h₆) = and_then-ok (uopen_coin amount) _ tx h₅ in
    let (fits, same_coin) = uopen_coin-ok amount coin p₆ in
    record {
      signer = signer;
      source = source;
      target = target;
      signed_by = map_err-ok _ _ signer p₁;
      from_funder = map_err-ok _ _ source p₃;
      to_client = map_err-ok _ _ target p₄;
      fits = fits;
      built =
          ap
            (λ c.
              lib.build_from_msgs (funding_config client) signer
                (msg_send source target (lib.new_coins (c ∷ []))))
            (sym same_coin)
          ∙ map_err-ok _ _ tx h₆;
    }

-- `FundAccount` either fails and sends nothing; or it sends one transaction, which the key of the given
-- name signs and which moves the amount, of less than 2 ^ 63 uopen, from the key's account to the
-- client's, and then it succeeds exactly if the transaction was executed without an error.
pub fund_account_cases :
    (lib : FundLib) (client : AcpGoClient) (funder : Bytes) (amount : ℕ) (s : Net)
    → let r = fund_account lib client funder amount s in
      Fails r s
      ⊎ ((tx : Bytes) × (hash : Bytes) × IsFundingTx lib client funder amount tx
          × (lib.broadcast tx ≡ ok hash)
          × (r.1.broadcasts ≡ s.broadcasts ++ tx ∷ [])
          × ((r.0 ≡ ok tt) ↔ (lib.await hash ≡ ok none)))
unfolding fund_account send_funds
fund_account_cases lib client funder amount s =
    elim (Result-cases (funding_tx lib client funder amount)) [
      | inl (e, p) ↦ inl (e, rw p)
      | inr (tx, p) ↦ elim (Result-cases (lib.broadcast tx)) [
        | inl (e, q) ↦ inl (not_sent e, rw (p, send_funds, q))
        | inr (hash, q) ↦ inr (
          tx,
          hash,
          funding_tx-IsFundingTx lib client funder amount tx p,
          q,
          rw (p, send_funds, q) refl,
          rw (p, send_funds, q)
              (elim (Result-cases (lib.await hash)) [
                | inl (e, w) ↦ rw w (λ h. absurd (cc h), λ h. absurd (cc h))
                | inr (none, w) ↦ rw w (λ h. refl, λ h. refl)
                | inr (some e, w) ↦ rw w (λ h. absurd (cc h), λ h. absurd (cc h))
              ]),
        )
      ]
    ]
