-- ===== src/Server/Servers/Tests.antt =====
-- Two servers, of which one is connected, and a hub without a public address.
use aerodocs.Store.Servers.{Server, has_id}
use aerodocs.Server.Gate.{HttpRequest}
use aerodocs.Server.Servers.{Fleet, fails, deleted, handle_delete_server, handle_self_unregister}
use aerodocs.Server.Servers.Address.{Settings}
use aerodocs.Server.Servers.Creation.{CreateServer, answer_created, handle_create_server}
use aerodocs.Server.Servers.Names.{handle_create_server_again}
use aerodocs.Store.Servers.Unique.{Change, sets_last_seen, deletes, run}
use aerodocs.Server.Servers.Deletion.{
  Deleted, handle_delete_server-Deleted, handle_self_unregister-Deleted,
  on_agent_disconnected-deleted,
}
use aerodocs.Grpc.Handler.{Hub, Environment}
use aerodocs.Grpc.Handler.Route.{on_agent_disconnected}
use aerodocs.Base.{
  ℕ, ◌≡◌, refl, ◌⊎◌, true, false, none, some, List, [], ◌∷◌, ◌++◌, returns, any, Bytes, text,
  text_eq,
}

abbrev server : Bytes → Server
server name = record {
  id = name;
  name = name;
  hostname = none;
  ip_address = none;
  os = none;
  status = text "online";
  registration_token = none;
  token_expires_at = none;
  agent_version = none;
  labels = text "{}";
  last_seen_at = none;
  created_at = text "1";
  updated_at = text "1";
}

abbrev fleet : Fleet
fleet = record {
  servers = server (text "a") ∷ server (text "b") ∷ [];
  permissions =
      record { id = text "p"; user_id = text "u"; server_id = text "b"; path = text "/var" } ∷ [];
  conn_mgr = record {
    streams = (text "a", record { server_id = text "a"; stream = 3; last_seen = 1 }) ∷ [];
  };
  audit = [];
}

abbrev settings : Settings
settings = record {
  net = record {
    split_host_port = λ s. none;
    join_host_port = λ h p. h ++ 58 ∷ p;
    is_loopback_ip = λ s. false;
    parse_url = λ s. none;
  };
  is_dev = false;
  grpc_addr = [];
  grpc_external_addr = [];
  env_public_base_url = text "x";
  get_config = λ k. none;
  trim_space = λ s. s;
}

abbrev request : HttpRequest
request = record {
  method = text "POST";
  path = [];
  host = [];
  tls = false;
  remote_addr = [];
  access_cookie = none;
  csrf_cookie = none;
  authorization = [];
  csrf_header = [];
  origin = [];
  request_id = [];
}

abbrev new_one : CreateServer
new_one = record {
  name = text "c";
  labels = [];
  id = text "c";
  raw_token = text "t";
  token_hash = text "t";
  expires_at = text "2";
  now = text "1";
  unregister_token = text "m";
}

-- The server that was created is seen, and another one deleted.
abbrev changes : List Change
changes = sets_last_seen (text "3") (text "c") ∷ deletes (text "b") ∷ []

abbrev later : Fleet
later = record fleet {
  servers = run changes (handle_create_server settings request (some new_one) fleet).0.servers;
}

handle_create_server_again_example :
    let out = handle_create_server settings request (some new_one) fleet in
    ((status : ℕ) × ((message : Bytes) × (out ≡ (fleet, fails status message))))
    ⊎ ((out.1 ≡ answer_created settings request new_one)
        × (handle_create_server settings request (some new_one) later
            ≡ (later, fails 409 (text "a server with this name already exists"))))
unfolding text_eq
handle_create_server_again_example =
    handle_create_server_again settings settings request request new_one new_one fleet later changes
      refl refl refl

handle_delete_server-Deleted_example :
    let out = handle_delete_server (text "a") fleet in
    ((any (has_id (text "a")) fleet.servers ≡ false)
      × (out ≡ (fleet, fails 404 (text "server not found"))))
    ⊎ ((any (has_id (text "a")) fleet.servers ≡ true)
        × ((out.1 ≡ deleted) × Deleted (text "a") fleet out.0))
handle_delete_server-Deleted_example = handle_delete_server-Deleted (text "a") fleet

handle_self_unregister-Deleted_example :
    let out = handle_self_unregister (λ s. s) (text "a") (text "a") fleet in
    (out.0 ≡ fleet) ⊎ ((text "a" ≡ text "a") × Deleted (text "a") fleet out.0)
handle_self_unregister-Deleted_example =
    handle_self_unregister-Deleted (λ s. s) (text "a") (text "a") fleet

abbrev env : Environment
env = record {
  hash_token = λ t. t;
  ca_cert = none;
  sign_csr = λ csr id. returns csr;
  parse_time = λ t. none;
  format_time = λ t. text "2";
  is_ip = λ t. false;
  quote = λ t. t;
}

abbrev hub : Hub
hub = record {
  servers = server (text "b") ∷ [];
  conn_mgr = (handle_delete_server (text "a") fleet).0.conn_mgr;
  pending = record { channels = [] };
  log_sessions = record { channels = []; overflow = [] };
  terminals = record { sessions = [] };
  hb_coalescer = record { interval = 60; last_written = []; writes = [] };
  sent = [];
  audit = [];
}

there : any (has_id (text "a")) fleet.servers ≡ true
unfolding text_eq
there = refl

on_agent_disconnected-deleted_example : on_agent_disconnected env 9 (text "a") 3 hub ≡ some hub
on_agent_disconnected-deleted_example =
    on_agent_disconnected-deleted env 9 (text "a") 3 fleet hub there refl
