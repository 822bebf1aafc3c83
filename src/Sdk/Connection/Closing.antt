-- ===== src/Sdk/Connection/Closing.antt =====
-- What the SDK's client leaves open, sdk/client.go.
use shinzohub.Prelude.{
  Bytes, some, List, ◌∷◌, ◌≡◌, ◌⊎◌, inl, inr, refl, ok, err, Result-cases, same_refl, codes,
}
use shinzohub.Sdk.Connection.{
  Open, NetLib, Opt, ClientConfig, Client, DialError, apply_opts, default_config, new_client,
  open_conn, open_comet, release, close, close_conn, stop_comet, grpc_dial, comet_rpc,
  start_comet_rpc, option_failed,
}

release_self : (h : Bytes) (xs : List Bytes) → release h (h ∷ xs) ≡ xs
unfolding release
release_self h xs = rw (same_refl h)

-- How the making of a client ends, from the open handles `s`.
pub record IsConnected (lib : NetLib) (opts : List Opt) (s : Open) (c : Client) (t : Open)
    : Type 0 where
  pub config : ClientConfig
  pub applied : apply_opts opts default_config ≡ ok config
  pub conn : Bytes
  pub rpc : Bytes
  pub dialled : lib.dial config.grpc_addr (lib.insecure ∷ config.grpc_opts) ≡ ok conn
  pub is_client : c ≡ record { conn = some conn; comet_client = some rpc }
  pub opened : t ≡ record { conns = conn ∷ s.conns; comets = rpc ∷ s.comets }

-- A client whose making failed has left nothing open, or the connection that was dialled.
abbrev pub IsLeft : NetLib → List Opt → Open → Open → Type 0
IsLeft lib opts s t =
    (t ≡ s)
    ⊎ ((config : ClientConfig) × (conn : Bytes) × (apply_opts opts default_config ≡ ok config)
        × (lib.dial config.grpc_addr (lib.insecure ∷ config.grpc_opts) ≡ ok conn)
        × (t ≡ record s { conns = conn ∷ s.conns }))

new_client_cases :
    (lib : NetLib) (opts : List Opt) (s : Open)
    → (((e : DialError) × (t : Open) × (new_client lib opts s ≡ (err e, t)) × IsLeft lib opts s t))
      ⊎ ((c : Client) × (t : Open) × (new_client lib opts s ≡ (ok c, t))
          × IsConnected lib opts s c t)
unfolding new_client open_conn open_comet
new_client_cases lib opts s = elim (Result-cases (apply_opts opts default_config)) [
  | inl (e, p) ↦ inl (option_failed e, s, rw p, inl refl)
  | inr (c, p) ↦ elim (Result-cases (lib.dial c.grpc_addr (lib.insecure ∷ c.grpc_opts))) [
    | inl (e, q) ↦ inl (grpc_dial e, s, rw (p, open_conn, q), inl refl)
    | inr (conn, q) ↦ elim (Result-cases (lib.new_comet c.comet_rpc_addr (codes "/websocket"))) [
      | inl (e, r) ↦
          inl (comet_rpc e, _, rw (p, open_conn, q, open_comet, r), inr (c, conn, p, q, refl))
      | inr (rpc, r) ↦ elim (Result-cases (lib.start_comet rpc)) [
        | inl (e, w) ↦ inl (
          start_comet_rpc e,
          _,
          rw (p, open_conn, q, open_comet, r, w),
          inr (c, conn, p, q, refl),
        )
        | inr (u, w) ↦ inr (
          _,
          _,
          rw (p, open_conn, q, open_comet, r, w),
          record {
            config = c;
            applied = p;
            conn = conn;
            rpc = rpc;
            dialled = q;
            is_client = refl;
            opened = refl;
          },
        )
      ]
    ]
  ]
]

close_connected :
    (conn rpc : Bytes) (s : Open)
    → close
        (record { conn = some conn; comet_client = some rpc })
        (record { conns = conn ∷ s.conns; comets = rpc ∷ s.comets })
      ≡ s
unfolding close close_conn stop_comet
close_connected conn rpc s = rw (release_self conn s.conns, release_self rpc s.comets)

-- Making a client either succeeds, with a connection dialled to the address that the options set and
-- the client of CometBFT open, and then closing the client leaves open just what was open before; or
-- it fails, and then what is open is as before, or has the connection as well, which was dialled and is
-- never closed.
pub new_client-close :
    (lib : NetLib) (opts : List Opt) (s : Open)
    → ((e : DialError) × (t : Open) × (new_client lib opts s ≡ (err e, t)) × IsLeft lib opts s t)
      ⊎ ((c : Client) × (t : Open) × (new_client lib opts s ≡ (ok c, t))
          × IsConnected lib opts s c t
          × (close c t ≡ s))
new_client-close lib opts s = elim (new_client_cases lib opts s) [
  | inl f ↦ inl f
  | inr (c, t, q, d) ↦ inr (c, t, q, d, cc (d.is_client, d.opened, close_connected d.conn d.rpc s))
]

-- Where CometBFT's client cannot be made, the connection is left open.
pub new_client-leak :
    (lib : NetLib) (opts : List Opt) (s : Open) (config : ClientConfig) (conn e : Bytes)
    → apply_opts opts default_config ≡ ok config
    → lib.dial config.grpc_addr (lib.insecure ∷ config.grpc_opts) ≡ ok conn
    → lib.new_comet config.comet_rpc_addr (codes "/websocket") ≡ err e
    → new_client lib opts s ≡ (err (comet_rpc e), record s { conns = conn ∷ s.conns })
unfolding new_client open_conn open_comet
new_client-leak lib opts s config conn e p q r = rw (p, open_conn, q, open_comet, r)
