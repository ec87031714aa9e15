-- ===== src/Server/Permissions.antt =====
-- hub/internal/server/handlers_paths.go and hub/internal/store/permissions.go: the table of the paths that
-- are granted to a user on a server. Whether the ids refer to a user and a server that exist, and the
-- names of the users, are parameters of the table; a new row comes last.
pub mod Laws
mod Tests
use aerodocs.Server.Files.{validate_request_path}
use aerodocs.Base.{
  ℕ, Bool, true, false, not, ◌&&◌, ◌||◌, Option, none, some, List, [], ◌∷◌, ◌++◌, map, ◌==◌,
  if◌then◌else◌, ◌>>=◌, length, keep, any, Bytes, text, text_eq, delete,
}

pub record PermissionRow : Type 0 where
  pub id : Bytes
  pub user_id : Bytes
  pub server_id : Bytes
  pub path : Bytes

pub record Permission : Type 0 where
  pub row : PermissionRow
  pub username : Bytes

pub record Users : Type 0 where
  pub username_of : Bytes → Option Bytes
  pub server_exists : Bytes → Bool

abbrev pub is_some : Option Bytes → Bool
is_some none = false
is_some (some name) = true

-- A row with the id, or with the user, the server and the path: the table's two unique keys.
unfoldable pub conflicts : PermissionRow → PermissionRow → Bool
conflicts new row =
    text_eq row.id new.id
    || (text_eq row.user_id new.user_id
        && (text_eq row.server_id new.server_id && text_eq row.path new.path))

unfoldable pub find_by_id : Bytes → List PermissionRow → Option PermissionRow
find_by_id id [] = none
find_by_id id (row ∷ rows) = if text_eq row.id id then some row else find_by_id id rows

unfoldable pub get_permission_by_id : Users → Bytes → List PermissionRow → Option Permission
unfolding find_by_id
get_permission_by_id users id rows = do
  row ← find_by_id id rows
  name ← users.username_of row.user_id
  some (record { row = row; username = name })

-- `id` is the new row's id. A failed insertion leaves the table as it is.
unfoldable pub create_permission :
    Users → PermissionRow → List PermissionRow → List PermissionRow × Option Permission
unfolding conflicts
create_permission users new rows =
    if any (conflicts new) rows
      || (not (is_some (users.username_of new.user_id)) || not (users.server_exists new.server_id))
    then (rows, none)
    else (rows ++ new ∷ [], get_permission_by_id users new.id (rows ++ new ∷ []))

abbrev pub is_of : Bytes → Bytes → PermissionRow → Bool
is_of user server row = text_eq row.user_id user && text_eq row.server_id server

unfoldable pub get_user_paths_for_server : Bytes → Bytes → List PermissionRow → List Bytes
get_user_paths_for_server user server rows = map (λ row. row.path) (keep (is_of user server) rows)

-- none is the error that no row was deleted.
unfoldable pub delete_permission : Bytes → List PermissionRow → Option (List PermissionRow)
delete_permission id rows =
    let rest = keep (λ row. not (text_eq row.id id)) rows in
    if length rest == length rows then none else some rest

pub data PathReply : Type 0 where
  fails : ℕ → Bytes → PathReply
  created : Permission → PathReply
  no_content : PathReply
  shows_paths : List Bytes → PathReply

-- `new` has a fresh id, the ids of the user and of the server, and the path of the request's body.
unfoldable pub handle_create_path :
    Users → PermissionRow → List PermissionRow → List PermissionRow × PathReply
unfolding create_permission
handle_create_path users new rows =
    if text_eq new.user_id [] || text_eq new.path []
    then (rows, fails 400 (text "user_id and path are required"))
    else elim (validate_request_path new.path) [
      | some message ↦ (rows, fails 400 (text "invalid path: " ++ message))
      | none ↦
          let (rows', made) = create_permission users new rows in
          elim made [
            | none ↦ (rows', fails 409 (text "permission already exists or invalid reference"))
            | some permission ↦ (rows', created permission)
          ]
    ]

unfoldable pub handle_delete_path :
    Users → Bytes → Bytes → List PermissionRow → List PermissionRow × PathReply
unfolding delete_permission
handle_delete_path users server_id path_id rows = elim (get_permission_by_id users path_id rows) [
  | none ↦ (rows, fails 404 (text "permission not found"))
  | some perm ↦
      if not (text_eq perm.row.server_id server_id)
      then (rows, fails 404 (text "permission not found"))
      else elim (delete_permission path_id rows) [
        | none ↦ (rows, fails 500 (text "failed to delete permission"))
        | some rest ↦ (rest, no_content)
      ]
]

unfoldable pub handle_get_user_paths : Bytes → Bytes → Bytes → List PermissionRow → PathReply
handle_get_user_paths role user server rows =
    if text_eq role (text "admin")
    then shows_paths (text "/" ∷ [])
    else shows_paths (get_user_paths_for_server user server rows)
