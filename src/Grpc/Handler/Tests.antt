-- ===== src/Grpc/Handler/Tests.antt =====
-- A hub with one server, its agent, and the registration of that agent.
use aerodocs.Grpc.Key.{colon}
use aerodocs.Store.Servers.{
  Server, get_server_by_token, conflicts, create_server, update_at, update_found, activated,
  activate_server, query_row,
}
use aerodocs.Store.Servers.Unique.{Change, creates, sets_last_seen, apply, run}
use aerodocs.Grpc.Handler.{RegisterAgent, heartbeat, terminal_data, Hub, Environment, certificate}
use aerodocs.Grpc.Handler.Registration.{
  Stream, issue_registration_certificate, activate, handle_register,
}
use aerodocs.Grpc.Handler.Route.{Received, receive_all, connect}
use aerodocs.Grpc.Handler.Reach.{IsValid, Confined}
use aerodocs.Grpc.Handler.Confined.{receive_all-Confined}
use aerodocs.Grpc.Handler.Connection.{Authentic}
use aerodocs.Grpc.Handler.Ended.{Outcome, connect-Outcome}
use aerodocs.Grpc.Handler.Once.{Registers, handle_register-once}
use aerodocs.Base.{
  ◌≡◌, refl, sym, true, false, none, some, List, [], ◌∷◌, arith, returns, raises, Bytes, text,
  text_eq, Lacks,
}

abbrev server : Server
server = record {
  id = text "s";
  name = text "web";
  hostname = none;
  ip_address = none;
  os = none;
  status = text "pending";
  registration_token = some (text "t");
  token_expires_at = none;
  agent_version = none;
  labels = text "{}";
  last_seen_at = none;
  created_at = text "1";
  updated_at = text "1";
}

abbrev hub : Hub
hub = record {
  servers = server ∷ [];
  conn_mgr = record { streams = [] };
  pending = record { channels = [] };
  log_sessions = record { channels = []; overflow = [] };
  terminals = record { sessions = [] };
  hb_coalescer = record { interval = 60; last_written = []; writes = [] };
  sent = [];
  audit = [];
}

abbrev env : Environment
env = record {
  hash_token = λ t. t;
  ca_cert = some (text "ca");
  sign_csr = λ csr id. returns csr;
  parse_time = λ t. none;
  format_time = λ t. text "2";
  is_ip = λ t. false;
  quote = λ t. t;
}

abbrev stream : Stream
stream = record {
  stream = 7;
  peer = certificate (text "s");
  peer_ip = text "10.0.0.1";
  now = 5;
  sends = true;
}

abbrev messages : List Received
messages =
    record { now = 6; sends = true; message = terminal_data (text "q") (1 ∷ []) }
    ∷ record { now = 7; sends = true; message = heartbeat (text "s") [] }
    ∷ []

valid : IsValid hub
valid = record { pending = tt; log_sessions = tt; terminals = tt }

receive_all-Confined_example :
    (hub' : Hub) × ((receive_all env (text "s") 7 messages hub ≡ some hub')
      × (IsValid hub' × Confined (text "s") hub hub'))
receive_all-Confined_example = receive_all-Confined env (text "s") 7 messages hub valid

plain : (id : Bytes) → Authentic env stream (some (heartbeat (text "s") [])) hub id → Lacks colon id
plain id authentic =
    let e : text "s" ≡ id = ground (arith, authentic.peer) in rw (sym e) (λ w. cc, tt)

connect-Outcome_example :
    (hub' : Hub) × ((connect env stream (some (heartbeat (text "s") [])) messages 9 hub ≡ some hub')
      × (IsValid hub' × Outcome env stream (some (heartbeat (text "s") [])) hub hub'))
connect-Outcome_example =
    connect-Outcome env stream (some (heartbeat (text "s") [])) messages 9 hub valid plain

abbrev reg : RegisterAgent
reg = record {
  token = text "t";
  hostname = text "h";
  ip_address = [];
  os = text "linux";
  agent_version = text "2";
  csr = 1 ∷ [];
}

abbrev before : List Change
before = creates server ∷ []

abbrev rows : List Server
rows = server ∷ []

created : run before [] ≡ rows
unfolding apply create_server conflicts text_eq
created = refl

registered : Registers env 5 reg [] rows (handle_register env 5 reg [] rows)
unfolding handle_register get_server_by_token query_row issue_registration_certificate activate
    activate_server activated update_found update_at text_eq
registered = record {
  srv = server;
  found = refl;
  fresh = refl;
  certs = (1 ∷ [], text "ca");
  issued = refl;
  rows' =
      activated (text "2")
        (record { hostname = text "h"; ip = []; os = text "linux"; agent_version = text "2" })
        server
      ∷ [];
  stored = refl;
  answer = refl;
}

handle_register-once_example :
    let later =
      run
        (sets_last_seen (text "3") (text "s") ∷ [])
        (handle_register env 5 reg [] (run before [])).0 in
    handle_register env 8 reg [] later
    ≡ (later, raises (text "invalid or expired registration token"))
handle_register-once_example =
    handle_register-once env before (sets_last_seen (text "3") (text "s") ∷ []) 5 8 reg reg [] []
      (rw created registered) refl refl
