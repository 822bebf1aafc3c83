-- ===== src/Tests/Clients.antt =====
-- The theorems on the clients at toy libraries, pkg/sourcehub, sdk/client.go and cmd/registrar.
use shinzohub.Prelude.{
  Bytes, [], ◌∷◌, ◌++◌, none, ◌≡◌, ◌↔◌, ◌⊎◌, Result, ok, err, Fails, codes, map_err,
}
use shinzohub.Registrar.Client.{Net, AcpGoClient}
use shinzohub.Registrar.Funding.{FundLib, FundError, fund_account}
use shinzohub.Registrar.Funding.Outcome.{IsFundingTx, fund_account_cases}
use shinzohub.Registrar.Funding.Making.{IsMade}
use shinzohub.Sdk.Connection.{Open, NetLib, Client, DialError, new_client, close}
use shinzohub.Sdk.Connection.Closing.{IsConnected, IsLeft, new_client-close}
use shinzohub.Daemon.Root.{client_failed, server_failed, registrar_main, registrar_main_cases}

abbrev toy_fund_lib : FundLib
toy_fund_lib = record {
  keyring = ok [];
  signer_from_keyring = λ kr name. ok name;
  new_client = ok tt;
  acc_from_bech32 = λ a. ok a;
  new_tx_builder = λ c. ok tt;
  new_coins = λ cs. cs;
  build_from_msgs = λ c signer m. ok (codes "tx");
  broadcast = λ tx. ok (codes "hash");
  await = λ h. ok none;
  produce_did = ok (record { did = codes "did:key:z" });
  balance = λ a d. ok 5;
}

abbrev toy_client : AcpGoClient
toy_client = record {
  signer = codes "source1client";
  actor = record { did = codes "did:key:z" };
  policy_id = codes "policy";
  chain_id = codes "sourcehub-dev";
}

abbrev quiet : Net
quiet = record { broadcasts = [] }

fund_account_cases_example :
    let r = fund_account toy_fund_lib toy_client (codes "validator") 100 quiet in
    Fails r quiet
    ⊎ ((tx : Bytes) × (hash : Bytes) × IsFundingTx toy_fund_lib toy_client
          (codes "validator")
          100
          tx
        × (toy_fund_lib.broadcast tx ≡ ok hash)
        × (r.1.broadcasts ≡ quiet.broadcasts ++ tx ∷ [])
        × ((r.0 ≡ ok tt) ↔ (toy_fund_lib.await hash ≡ ok none)))
fund_account_cases_example =
    fund_account_cases toy_fund_lib toy_client (codes "validator") 100 quiet

abbrev toy_net_lib : NetLib
toy_net_lib = record {
  insecure = [];
  dial = λ addr opts. ok (codes "conn");
  new_comet = λ addr path. ok (codes "rpc");
  start_comet = λ rpc. ok tt;
}

abbrev nothing_open : Open
nothing_open = record { conns = []; comets = [] }

new_client-close_example :
    ((e : DialError) × (t : Open) × (new_client toy_net_lib [] nothing_open ≡ (err e, t))
      × IsLeft toy_net_lib [] nothing_open t)
    ⊎ ((c : Client) × (t : Open) × (new_client toy_net_lib [] nothing_open ≡ (ok c, t))
        × IsConnected toy_net_lib [] nothing_open c t
        × (close c t ≡ nothing_open))
new_client-close_example = new_client-close toy_net_lib [] nothing_open

-- A server that is stopped at once.
abbrev stopped_server : AcpGoClient → Bytes → Result Bytes (Unit {0})
stopped_server client addr = err (codes "closed")

registrar_main_cases_example :
    let main =
      registrar_main toy_fund_lib
        (λ h. ok h)
        (λ k. k)
        (codes "policy")
        (codes "ab")
        stopped_server in
    ((e : FundError) × (main ≡ err (client_failed e)))
    ⊎ ((client : AcpGoClient) × (key : Bytes) × (◌≡◌ {A = Result Bytes Bytes}
          (ok (codes "ab"))
          (ok key))
        × IsMade (codes "policy") (codes "sourcehub-dev") key client
        × (main ≡ map_err server_failed (stopped_server client (codes ":8081"))))
registrar_main_cases_example =
    registrar_main_cases toy_fund_lib (λ h. ok h) (λ k. k) (codes "policy") (codes "ab")
      stopped_server
