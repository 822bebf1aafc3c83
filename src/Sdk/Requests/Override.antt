-- ===== src/Sdk/Requests/Override.antt =====
-- What a request of sdk/request_stream_access.go leaves in the builder that it was given.
use shinzohub.Prelude.{Bytes, Bool, [], ◌∷◌, ok, Result-cases, ◌>>=◌, ◌≡◌, ◌≢◌, refl, inl, inr}
use shinzohub.Sourcehub.Messages.{validate_request_stream_access}
use shinzohub.Sourcehub.Server.{stream_access}
use shinzohub.Sdk.Builder.{SdkLib, SdkError, build, apply_opt}
use shinzohub.Sdk.Requests.{
  Session, Service, TxResponse, RequestStreamAccessParams, message_of, post, accepted,
  override_gas_price, request_stream_access, send_request,
}

posted-builder :
    (service : Service) (bz : Bytes) (reject : TxResponse → SdkError) (s : Session)
    → ((post service bz >>= accepted reject) s).1.builder ≡ s.builder
unfolding post accepted
posted-builder service bz reject s = elim (Result-cases (service bz)) [
  | inl (e, p) ↦ rw p refl
  | inr (response, p) ↦ rw p refl
]

sent-builder :
    (lib : SdkLib) (service : Service) (p : RequestStreamAccessParams) (s : Session)
    → (send_request lib service p s).1.builder ≡ s.builder
unfolding send_request
sent-builder lib service p s =
    elim (Result-cases (build lib s.builder p.signer (stream_access (message_of p)))) [
      | inl (e, h) ↦ rw h refl
      | inr (tx, h) ↦ elim (Result-cases (lib.encode tx)) [
        | inl (e, k) ↦ rw (h, k) refl
        | inr (bz, k) ↦ rw (h, k) (posted-builder service bz (λ r. SdkError.rejected r.raw_log) s)
      ]
    ]

override-some :
    (gp : Bytes) (s : Session)
    → gp ≢ []
    → override_gas_price gp s
      ≡ (ok tt, record s { builder = record s.builder { min_gas_price = gp } })
unfolding override_gas_price apply_opt
override-some [] s ne = absurd (ne refl)
override-some (c ∷ gp) s ne = refl

-- If the message passes its checks and a gas price is given, this price stays in the shared builder
-- for every later transaction, whether or not the request succeeds.
pub gas_price_stays :
    (is_bech32 : Bytes → Bool) (lib : SdkLib) (service : Service) (p : RequestStreamAccessParams)
    (s : Session)
    → validate_request_stream_access is_bech32 (message_of p) ≡ ok tt
    → p.min_gas_price ≢ []
    → (request_stream_access is_bech32 lib service p s).1.builder
      ≡ record s.builder { min_gas_price = p.min_gas_price }
unfolding request_stream_access
gas_price_stays is_bech32 lib service p s valid ne =
    rw (valid, override-some p.min_gas_price s ne) (sent-builder lib service p _)
