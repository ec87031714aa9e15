-- ===== src/Server/Servers/Creation.antt =====
-- The creation of a server, and what is left of one that fails.
use aerodocs.Store.Servers.{Server, get_server_by_name, create_server}
use aerodocs.Server.Gate.{HttpRequest}
use aerodocs.Server.Servers.{Fleet, Reply, fails, created, server_created, audited}
use aerodocs.Server.Servers.Address.{
  Settings, host_from_addr, resolve_grpc_target, resolve_public_base_url, is_valid_grpc_addr,
}
use aerodocs.Base.{
  not, ◌&&◌, Option, none, some, [], if◌then◌else◌, returns, raises, length, drop, Bytes, text,
  text_eq, has_prefix,
}

-- The body, with what the handler makes: the server's id, its raw token with its hash, its expiry and
-- the token to unregister.
pub record CreateServer : Type 0 where
  pub name : Bytes
  pub labels : Bytes
  pub id : Bytes
  pub raw_token : Bytes
  pub token_hash : Bytes
  pub expires_at : Bytes
  pub now : Bytes
  pub unregister_token : Bytes

unfoldable pub new_server : CreateServer → Server
new_server req = record {
  id = req.id;
  name = req.name;
  hostname = none;
  ip_address = none;
  os = none;
  status = text "pending";
  registration_token = some req.token_hash;
  token_expires_at = some req.expires_at;
  agent_version = none;
  labels = if text_eq req.labels [] then text "{}" else req.labels;
  last_seen_at = none;
  created_at = req.now;
  updated_at = req.now;
}

abbrev pub without_prefix : Bytes → Bytes → Bytes
without_prefix p s = if has_prefix s p then drop (length p) s else s

-- What is answered once the server is in the database, without the row's times.
unfoldable pub answer_created : Settings → HttpRequest → CreateServer → Reply
answer_created s r req = elim (resolve_public_base_url s r) [
  | raises error ↦ fails 500 (text "public hub address is not configured")
  | returns base_url ↦
      let target =
        resolve_grpc_target s (host_from_addr s.net (without_prefix (text "https://") base_url)) in
      if not s.is_dev && not (is_valid_grpc_addr s.net target)
      then fails 500 (text "invalid gRPC address")
      else created (record (new_server req) { created_at = []; updated_at = [] }) req.raw_token
          target base_url req.unregister_token
]

unfoldable pub handle_create_server :
    Settings → HttpRequest → Option CreateServer → Fleet → Fleet × Reply
unfolding answer_created new_server
handle_create_server s r none fleet = (fleet, fails 400 (text "invalid request body"))
handle_create_server s r (some req) fleet =
    if text_eq req.name []
    then (fleet, fails 400 (text "server name is required"))
    else elim (get_server_by_name req.name fleet.servers) [
      | some existing ↦ (fleet, fails 409 (text "a server with this name already exists"))
      | none ↦ elim (create_server (new_server req) fleet.servers) [
        | none ↦ (fleet, fails 500 (text "failed to create server"))
        | some rows ↦ (
          audited (server_created req.id) (record fleet { servers = rows }),
          answer_created s r req,
        )
      ]
    ]
