-- ===== src/Tests/Setups.antt =====
-- Witnesses for the constructors, on a TLS that is always set up.
use quietquic.Config.{ServerSecrets, ClientConfigFile, ConfigError}
use quietquic.Endpoint.{Role, Endpoint}
use quietquic.Endpoint.Setup.{Host, new_endpoint, new_client}
use quietquic.Endpoint.Setup.Dial.{Dials, new_client-Dials}
use quietquic.HashSet
use quietquic.Outcome.{ConnectionHandle}
use quietquic.Prelude.{ℕ, ◌≡◌, false, none, some, [], ◌∷◌, ℕ_discrete, Result}
use quietquic.Selector.{build_dcid}
use quietquic.Tests.{toy_hash, floats, toy_net}

abbrev toy_host : Host toy_net
toy_host = record {
  trims_to_empty = λ s. false;
  QuicServerConfig = Unit;
  QuicClientConfig = Unit;
  quic_server = Result.ok tt;
  quic_client = Result.ok tt;
  transport_config = λ config psk. 3;
  endpoint = 0;
  connect = λ now config psk dcid server inner.
      (Result.ok ((0, record { events = []; accepts = []; bytes = [] }), (9 ∷ []) ∷ []), inner);
}

abbrev secrets : ServerSecrets ℕ
secrets = record {
  listen = record { ip = 1; port = 2 };
  clients =
      record { client_id = "a"; psk = 7 ∷ [] } ∷ record { client_id = "b"; psk = 8 ∷ [] } ∷ [];
}

abbrev server : Endpoint floats ℕ toy_net
server =
    new_endpoint toy_host ℕ_discrete Role.server
      (record { client_id = "a"; psk = 7 ∷ []; server_config = 3 }
        ∷ record { client_id = "b"; psk = 8 ∷ []; server_config = 3 }
        ∷ [])
      none 0

abbrev dials : ClientConfigFile ℕ
dials = record { client_id = "a"; psk = 7 ∷ []; server = record { ip = 1; port = 2 }; bind = none }

new_client-Dials_example :
    (r : Result (Endpoint floats ℕ toy_net × ConnectionHandle) ConfigError) × (new_client toy_host
        ℕ_discrete toy_hash
        (1 ∷ 2 ∷ 3 ∷ 4 ∷ 5 ∷ 6 ∷ 7 ∷ 8 ∷ [])
        10
        100
        dials
      ≡ some r)
    × Dials toy_host ℕ_discrete 10 dials
        (build_dcid toy_hash (7 ∷ []) (1 ∷ 2 ∷ 3 ∷ 4 ∷ 5 ∷ 6 ∷ 7 ∷ 8 ∷ []) 100)
        (Result.ok tt)
        r
new_client-Dials_example =
    new_client-Dials toy_host ℕ_discrete toy_hash (1 ∷ 2 ∷ 3 ∷ 4 ∷ 5 ∷ 6 ∷ 7 ∷ 8 ∷ []) 10 100 dials
