-- ===== src/Server/Servers/Deletion.antt =====
-- The deletion of a server, and of its connection.
use aerodocs.ConnMgr.{unregister, unregister_if_current, get_conn}
use aerodocs.Store.Servers.{Server, has_id, query_row, get_server_by_id, delete_server}
use aerodocs.Store.Servers.Tokens.{query_row-found}
use aerodocs.Server.Permissions.{PermissionRow, get_user_paths_for_server}
use aerodocs.Server.Servers.{
  Fleet, deleted, fails, cascade, handle_delete_server, handle_self_unregister,
}
use aerodocs.Grpc.Handler.{Hub, Environment}
use aerodocs.Grpc.Handler.Route.{on_agent_disconnected}
use aerodocs.Base.{
  ℕ, ◌≡◌, refl, sym, ◌∙◌, ◌≢◌, ◌⊎◌, inl, inr, true, false, not, none, some, List, [], ◌∷◌, arith,
  Bool-cases, Option-cases, keep, any, Bytes, text, text_eq, eq_of_text_eq, text_eq_iff, lookup,
  lookup-delete, lookup-delete_self,
}

abbrev rest_of : Bytes → List Server → List Server
rest_of id rows = keep (λ srv. not (has_id id srv)) rows

not_there : (id : Bytes) (rows : List Server) → any (has_id id) (rest_of id rows) ≡ false
not_there id [] = refl
not_there id (srv ∷ rows) = ground (arith, not_there id rows)

still_there :
    (id other : Bytes) (rows : List Server)
    → id ≢ other
    → any (has_id other) (rest_of id rows) ≡ any (has_id other) rows
still_there id other [] ne = refl
still_there id other (srv ∷ rows) ne =
    ground
      (arith, still_there id other rows ne, text_eq_iff srv.id id, text_eq_iff srv.id other, ne)

not_found : (id : Bytes) (rows : List Server) → query_row (has_id id) (rest_of id rows) ≡ none
unfolding query_row
not_found id [] = refl
not_found id (srv ∷ rows) = ground (arith, not_found id rows)

still_found :
    (id other : Bytes) (rows : List Server)
    → id ≢ other
    → query_row (has_id other) (rest_of id rows) ≡ query_row (has_id other) rows
unfolding query_row
still_found id other [] ne = refl
still_found id other (srv ∷ rows) ne =
    ground
      (arith, still_found id other rows ne, text_eq_iff srv.id id, text_eq_iff srv.id other, ne)

paths_gone :
    (user id : Bytes) (servers : List Server) (ps : List PermissionRow)
    → any (has_id id) servers ≡ false
    → get_user_paths_for_server user id (cascade servers ps) ≡ []
unfolding get_user_paths_for_server
paths_gone user id servers [] gone = refl
paths_gone user id servers (p ∷ ps) gone = elim (Bool-cases (text_eq p.server_id id)) [
  | inl same ↦
      let dropped : any (has_id p.server_id) servers ≡ false =
        rw (eq_of_text_eq p.server_id id same) gone in
      rw dropped (paths_gone user id servers ps gone)
  | inr other ↦ ground (arith, other, paths_gone user id servers ps gone)
]

paths_kept :
    (user id : Bytes) (servers : List Server) (ps : List PermissionRow)
    → any (has_id id) servers ≡ true
    → get_user_paths_for_server user id (cascade servers ps) ≡ get_user_paths_for_server user id ps
unfolding get_user_paths_for_server
paths_kept user id servers [] here = refl
paths_kept user id servers (p ∷ ps) here = elim (Bool-cases (text_eq p.server_id id)) [
  | inl same ↦
      let kept : any (has_id p.server_id) servers ≡ true =
        rw (eq_of_text_eq p.server_id id same) here in
      rw kept (ground (arith, same, paths_kept user id servers ps here))
  | inr other ↦ ground (arith, other, paths_kept user id servers ps here)
]

-- Of a server that was deleted nothing is left, and of the others nothing is lost.
pub record Deleted (id : Bytes) (fleet fleet' : Fleet) : Type 0 where
  pub server : get_server_by_id id fleet'.servers ≡ none
  pub paths : (user : Bytes) → get_user_paths_for_server user id fleet'.permissions ≡ []
  pub connection : get_conn id fleet'.conn_mgr ≡ none
  pub other_server :
      (other : Bytes)
      → id ≢ other
      → get_server_by_id other fleet'.servers ≡ get_server_by_id other fleet.servers
  pub other_paths :
      (user other : Bytes)
      → id ≢ other
      → any (has_id other) fleet.servers ≡ true
      → get_user_paths_for_server user other fleet'.permissions
        ≡ get_user_paths_for_server user other fleet.permissions
  pub other_connection :
      (other : Bytes) → id ≢ other → get_conn other fleet'.conn_mgr ≡ get_conn other fleet.conn_mgr

deletion :
    (id : Bytes) (fleet fleet' : Fleet)
    → fleet'.servers ≡ rest_of id fleet.servers
    → fleet'.permissions ≡ cascade (rest_of id fleet.servers) fleet.permissions
    → fleet'.conn_mgr ≡ unregister id fleet.conn_mgr
    → Deleted id fleet fleet'
unfolding get_server_by_id get_conn unregister
deletion id fleet fleet' rows perms conns = record {
  server = rw rows (not_found id fleet.servers);
  paths = λ user. rw perms (
      paths_gone user id (rest_of id fleet.servers) fleet.permissions (not_there id fleet.servers));
  connection = rw conns (lookup-delete_self id fleet.conn_mgr.streams);
  other_server = λ other ne. rw rows (still_found id other fleet.servers ne);
  other_paths = λ user other ne here.
      let kept = still_there id other fleet.servers ne ∙ here in
      rw perms (paths_kept user other (rest_of id fleet.servers) fleet.permissions kept);
  other_connection = λ other ne.
      rw conns
        (lookup-delete id other fleet.conn_mgr.streams ∙ ground (arith, text_eq_iff id other, ne));
}

-- A server that the table does not have is not deleted, and nothing changes. Else, after its deletion
-- the server is not found, no path on it is granted to anyone and it has no connection; every other
-- server, the paths that are granted on it and its connection are as they were.
pub handle_delete_server-Deleted :
    (id : Bytes) (fleet : Fleet)
    → let out = handle_delete_server id fleet in
      ((any (has_id id) fleet.servers ≡ false)
        × (out ≡ (fleet, fails 404 (text "server not found"))))
      ⊎ ((any (has_id id) fleet.servers ≡ true) × ((out.1 ≡ deleted) × Deleted id fleet out.0))
unfolding handle_delete_server delete_server
handle_delete_server-Deleted id fleet = elim (Bool-cases (any (has_id id) fleet.servers)) [
  | inr gone ↦ inl (gone, rw (gone, handle_delete_server, delete_server) refl)
  | inl here ↦ inr (
    here,
    rw (here, handle_delete_server, delete_server) (refl, deletion id fleet _ refl refl refl),
  )
]

has_found_id :
    (id : Bytes) (rows : List Server) (srv : Server)
    → get_server_by_id id rows ≡ some srv
    → any (has_id id) rows ≡ true
unfolding get_server_by_id
has_found_id id rows srv e =
    let (passes, there) = query_row-found (has_id id) rows srv e in
    rw (sym (eq_of_text_eq srv.id id passes)) there

-- A request of an agent to unregister changes nothing; or it has the token for that id, and the server
-- and its connection are deleted like by an admin.
pub handle_self_unregister-Deleted :
    (self_unregister_token : Bytes → Bytes) (id token : Bytes) (fleet : Fleet)
    → let out = handle_self_unregister self_unregister_token id token fleet in
      (out.0 ≡ fleet) ⊎ ((token ≡ self_unregister_token id) × Deleted id fleet out.0)
unfolding handle_self_unregister delete_server
handle_self_unregister-Deleted mac id token fleet =
    elim (Option-cases (get_server_by_id id fleet.servers)) [
      | inl gone ↦ inl (rw (gone, handle_self_unregister) refl)
      | inr (srv, found) ↦ elim (Bool-cases (text_eq token (mac id))) [
        | inr forged ↦ inl (rw (found, forged, handle_self_unregister) refl)
        | inl genuine ↦
            let here = has_found_id id fleet.servers srv found in
            inr (
              eq_of_text_eq token (mac id) genuine,
              rw (found, genuine, here, handle_self_unregister, delete_server)
                  (deletion id fleet _ refl refl refl),
            )
      ]
    ]

-- When the stream of an agent ends whose server was deleted before, the handler of its disconnection
-- does nothing: the sessions of its terminals stay open, and no browser that reads one is told.
pub on_agent_disconnected-deleted :
    (env : Environment) (now : ℕ) (id : Bytes) (stream : ℕ) (fleet : Fleet) (hub : Hub)
    → any (has_id id) fleet.servers ≡ true
    → hub.conn_mgr ≡ (handle_delete_server id fleet).0.conn_mgr
    → on_agent_disconnected env now id stream hub ≡ some hub
unfolding on_agent_disconnected unregister_if_current get_conn
on_agent_disconnected-deleted env now id stream fleet hub here same =
    elim (handle_delete_server-Deleted id fleet) [
      | inl (gone, e) ↦ absurd (ground (arith, gone, here))
      | inr (there, (e, done)) ↦
          let free : lookup id hub.conn_mgr.streams ≡ none = rw same done.connection in
          rw (free, on_agent_disconnected, unregister_if_current) refl
    ]
