-- ===== src/Server/Servers.antt =====
-- hub/internal/server/handlers_servers.go and handlers_unregister.go: the handlers of servers, on the
-- database's tables of servers and permissions, the connections and the audit log. Ids, tokens and
-- times are those that the handler makes. The text of the install command has no model, its parts do.
pub mod Address
pub mod Privacy
pub mod Deletion
pub mod Creation
pub mod Names
mod Tests
use aerodocs.ConnMgr.{ConnManager, unregister, get_conn}
use aerodocs.Store.Servers.{
  Server, get_server_by_id, get_server_by_name, has_id, create_server, update_server, delete_server,
  delete_servers,
}
use aerodocs.Server.Permissions.{PermissionRow, get_user_paths_for_server}
use aerodocs.Base.{
  ℕ, not, ◌&&◌, Option, none, some, List, [], ◌∷◌, ltb, ◌==◌, if◌then◌else◌, length, keep, any,
  Bytes, text, text_eq, delete,
}

-- An entry of the audit log.
pub data Audit : Type 0 where
  server_created server_updated server_deleted server_unregistered : Bytes → Audit
  servers_deleted : ℕ → Audit

pub record Fleet : Type 0 where
  pub servers : List Server
  pub permissions : List PermissionRow
  pub conn_mgr : ConnManager
  pub audit : List Audit

pub data Reply : Type 0 where
  fails : ℕ → Bytes → Reply
  -- The server, its raw token, the gRPC address, the base URL and the token to unregister.
  created : Server → Bytes → Bytes → Bytes → Bytes → Reply
  shows : Server → Reply
  updated : Option Server → Reply
  deleted : Reply
  batch_deleted : ℕ → Reply
  unregistered no_content : Reply

-- `ON DELETE CASCADE` of the permissions.
abbrev pub cascade : List Server → List PermissionRow → List PermissionRow
cascade servers permissions = keep (λ p. any (has_id p.server_id) servers) permissions

abbrev pub with_servers : List Server → Fleet → Fleet
with_servers servers fleet = record fleet {
  servers = servers;
  permissions = cascade servers fleet.permissions;
}

abbrev pub audited : Audit → Fleet → Fleet
audited entry fleet = record fleet { audit = entry ∷ fleet.audit }

unfoldable pub handle_get_server : Bytes → Bytes → Bytes → Fleet → Reply
handle_get_server role user id fleet =
    let is_admin = text_eq role (text "admin") in
    elim (get_server_by_id id fleet.servers) [
      | none ↦
          if not is_admin
          then fails 403 (text "access denied")
          else fails 404 (text "server not found")
      | some srv ↦
          if not is_admin && length (get_user_paths_for_server user id fleet.permissions) == 0
          then fails 403 (text "access denied")
          else shows srv
    ]

-- The body is the decoded name and labels.
unfoldable pub handle_update_server : Bytes → Bytes → Option (Bytes × Bytes) → Fleet → Fleet × Reply
handle_update_server now id none fleet = (fleet, fails 400 (text "invalid request body"))
handle_update_server now id (some (name, labels)) fleet =
    if text_eq name []
    then (fleet, fails 400 (text "server name is required"))
    else elim (update_server now id name labels fleet.servers) [
      | none ↦ (fleet, fails 404 (text "server not found"))
      | some rows ↦ (
        audited (server_updated id) (record fleet { servers = rows }),
        updated (get_server_by_id id rows),
      )
    ]

abbrev pub disconnect : Bytes → Fleet → Fleet
disconnect id fleet = record fleet { conn_mgr = unregister id fleet.conn_mgr }

unfoldable pub handle_delete_server : Bytes → Fleet → Fleet × Reply
handle_delete_server id fleet = elim (delete_server id fleet.servers) [
  | none ↦ (fleet, fails 404 (text "server not found"))
  | some rows ↦ (audited (server_deleted id) (disconnect id (with_servers rows fleet)), deleted)
]

-- The loop of `handleBatchDeleteServers`.
abbrev pub disconnect_all : List Bytes → Fleet → Fleet
disconnect_all [] fleet = fleet
disconnect_all (id ∷ ids) fleet = disconnect_all ids (disconnect id fleet)

unfoldable pub handle_batch_delete_servers : Option (List Bytes) → Fleet → Fleet × Reply
handle_batch_delete_servers none fleet = (fleet, fails 400 (text "invalid request body"))
handle_batch_delete_servers (some ids) fleet =
    if length ids == 0
    then (fleet, fails 400 (text "ids list cannot be empty"))
    else if ltb 100 (length ids)
    then (fleet, fails 400 (text "maximum 100 servers per batch"))
    else (
      audited (servers_deleted (length ids))
          (disconnect_all ids (with_servers (delete_servers ids fleet.servers) fleet)),
      batch_deleted (length ids),
    )

-- The end of `handleUnregisterServer`, after the agent's acknowledgement or its timeout.
unfoldable pub handle_unregister_server : Bytes → Fleet → Fleet × Reply
handle_unregister_server id fleet = elim (delete_server id fleet.servers) [
  | none ↦ (fleet, fails 500 (text "failed to delete server"))
  | some rows ↦ (audited (server_unregistered id) (with_servers rows fleet), unregistered)
]

-- `self_unregister_token` is the keyed hash of an id.
unfoldable pub handle_self_unregister : (Bytes → Bytes) → Bytes → Bytes → Fleet → Fleet × Reply
handle_self_unregister self_unregister_token id token fleet =
    elim (get_server_by_id id fleet.servers) [
      | none ↦ (fleet, no_content)
      | some srv ↦
          if not (text_eq token (self_unregister_token id))
          then (fleet, fails 403 (text "unauthorized"))
          else elim (delete_server id fleet.servers) [
            | none ↦ (disconnect id fleet, fails 500 (text "failed to delete server"))
            | some rows ↦ (
              audited (server_unregistered id) (with_servers rows (disconnect id fleet)),
              no_content,
            )
          ]
    ]
