-- ===== src/Server/Permissions/Tests.antt =====
-- A path that is granted to a user.
use aerodocs.Paths.{is_abs, words, split, resolve, enter}
use aerodocs.Paths.Rel.{is_above}
use aerodocs.Server.Files.{validate_request_path}
use aerodocs.Server.Permissions.{
  PermissionRow, Permission, Users, find_by_id, get_permission_by_id, create_permission, created,
  handle_create_path,
}
use aerodocs.Base.{◌≡◌, refl, true, some, [], ◌∷◌, text, text_eq, has_prefix, contains}

abbrev users : Users
users = record { username_of = λ u. some (text "ann"); server_exists = λ s. true }

abbrev new_row : PermissionRow
new_row = record { id = text "i"; user_id = text "u"; server_id = text "s"; path = text "/data" }

abbrev granted : Permission
granted = record { row = new_row; username = text "ann" }

row_is_made : handle_create_path users new_row [] ≡ (new_row ∷ [], created granted)
unfolding handle_create_path create_permission validate_request_path has_prefix contains text_eq
    find_by_id get_permission_by_id
row_is_made = refl

target_is_abs : is_abs (text "/data/log") ≡ true
unfolding is_abs has_prefix
target_is_abs = refl

target_is_below : is_above (words (text "/data")) (words (text "/data/log")) ≡ true
unfolding words is_abs has_prefix split resolve enter text_eq
target_is_below = refl
