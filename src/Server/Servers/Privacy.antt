-- ===== src/Server/Servers/Privacy.antt =====
-- What a user who is not an admin learns of a server.
use aerodocs.Store.Servers.{Server, get_server_by_id}
use aerodocs.Server.Permissions.{get_user_paths_for_server}
use aerodocs.Server.Servers.{Fleet, fails, shows, handle_get_server}
use aerodocs.Base.{
  ◌≡◌, refl, ap, ◌≢◌, ◌⊎◌, inl, inr, false, some, [], arith, ◌==◌, Bool-cases, Option-cases, length,
  Bytes, text, text_eq, text_eq_iff,
}

-- A user who is not an admin is shown a server only if a path on it is granted to the user, and then
-- it is the server with that id; in every other case the answer is the same, whether there is such a server or not.
pub handle_get_server-Private :
    (role user id : Bytes) (fleet : Fleet)
    → role ≢ text "admin"
    → (handle_get_server role user id fleet ≡ fails 403 (text "access denied"))
      ⊎ ((srv : Server) × ((handle_get_server role user id fleet ≡ shows srv)
            × ((get_server_by_id id fleet.servers ≡ some srv)
                × (get_user_paths_for_server user id fleet.permissions ≢ []))))
unfolding handle_get_server
handle_get_server-Private role user id fleet ordinary =
    let other : text_eq role (text "admin") ≡ false =
      ground (arith, text_eq_iff role (text "admin"), ordinary) in
    let paths = get_user_paths_for_server user id fleet.permissions in
    elim (Option-cases (get_server_by_id id fleet.servers)) [
      | inl gone ↦ inl (rw (gone, other, handle_get_server) refl)
      | inr (srv, found) ↦ elim (Bool-cases (length paths == 0)) [
        | inl bare ↦ inl (rw (found, other, bare, handle_get_server) refl)
        | inr granted ↦ inr (
          srv,
          (
            rw (found, other, granted, handle_get_server) refl,
            (found, λ empty. absurd (ground (arith, ap length empty, granted))),
          ),
        )
      ]
    ]
