-- ===== src/Process.antt =====
-- credbroker/main.py: what the process builds before it serves.
use credbroker.Common.{Text, true, [], ◌∷◌}
use credbroker.Config.{Settings}
use credbroker.Console.State.{AppState, create_app}
use credbroker.Grpc.Servicer.{CredBrokerServicer, build_grpc_server}

-- The keypair of a configuration without one is the new one, of a private and a public key.
abbrev keys_or : Text × Text → Settings → Text → Settings
keys_or (private_pem, public_pem) settings [] = record settings {
  jwt_private_key_pem = private_pem;
  jwt_public_key_pem = public_pem;
}
keys_or new_pair settings (c ∷ pem) = settings

-- `ensure_dev_jwt_keys`, with the keypair that RSA generates where it is called
abbrev pub ensure_dev_jwt_keys : Text × Text → Settings → Settings
ensure_dev_jwt_keys new_pair settings = keys_or new_pair settings settings.jwt_private_key_pem

pub record Servers : Type 0 where
  pub http_app : AppState
  pub grpc_server : CredBrokerServicer

-- `build_servers`: both servers get the same settings and the same Redis client
abbrev pub build_servers : Settings → Servers
build_servers settings = record {
  http_app = create_app settings true;
  grpc_server = build_grpc_server settings;
}
