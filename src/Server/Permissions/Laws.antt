-- ===== src/Server/Permissions/Laws.antt =====
-- Granting and revoking paths.
use aerodocs.Paths.{is_abs, words}
use aerodocs.Paths.Rel.{is_above}
use aerodocs.Server.Files.{validate_request_path, is_path_allowed}
use aerodocs.Server.Files.Laws.{covers, is_path_allowed-covers}
use aerodocs.Server.Permissions.{
  PermissionRow, Permission, Users, conflicts, find_by_id, get_permission_by_id, create_permission,
  is_of, get_user_paths_for_server, delete_permission, created, no_content, handle_create_path,
  handle_delete_path,
}
use aerodocs.Base.{
  ◌≡◌, refl, ap, ◌∙◌, inl, inr, Bool, true, false, not, none, some, List, [], ◌∷◌, ◌++◌, map, arith,
  ◌==◌, if◌then◌else◌, Bool-cases, Option-cases, length, length-append, keep, any, Bytes, text_eq,
  text_eq_refl,
}

keep_append :
    (p : PermissionRow → Bool) (xs ys : List PermissionRow)
    → keep p (xs ++ ys) ≡ keep p xs ++ keep p ys
keep_append p [] ys = refl
keep_append p (x ∷ xs) ys = elim (Bool-cases (p x)) [
  | inl yes_ ↦ rw (yes_, keep_append p xs ys) refl
  | inr no_ ↦ rw (no_, keep_append p xs ys) refl
]

map_append :
    (f : PermissionRow → Bytes) (xs ys : List PermissionRow)
    → map f (xs ++ ys) ≡ map f xs ++ map f ys
map_append f [] ys = refl
map_append f (x ∷ xs) ys = rw (map_append f xs ys) refl

any_last :
    (p : Bytes → Bool) (xs : List Bytes) (x : Bytes) → p x ≡ true → any p (xs ++ x ∷ []) ≡ true
any_last p [] x h = rw h refl
any_last p (y ∷ xs) x h = elim (Bool-cases (p y)) [
  | inl yes_ ↦ rw yes_ refl
  | inr no_ ↦ rw (no_, any_last p xs x h) refl
]

create_rows :
    (users : Users) (new : PermissionRow) (rows rows' : List PermissionRow)
    (permission : Permission)
    → handle_create_path users new rows ≡ (rows', created permission)
    → (rows' ≡ rows ++ new ∷ [])
      × ((any (conflicts new) rows ≡ false) × (validate_request_path new.path ≡ none))
unfolding handle_create_path create_permission
create_rows users new rows rows' permission made =
    elim (Option-cases (validate_request_path new.path)) [
      | inr (m, bad) ↦ absurd (ground (arith, bad, made))
      | inl good ↦ elim (Bool-cases (any (conflicts new) rows)) [
        | inl clash ↦ absurd (ground (arith, good, clash, made))
        | inr free ↦ (ground (arith, good, free, made), (free, good))
      ]
    ]

valid_abs : (path : Bytes) → validate_request_path path ≡ none → is_abs path ≡ true
unfolding validate_request_path is_abs
valid_abs path good = ground arith

-- When a path is granted, the paths of that user on that server are those of before and the new
-- one; those of any other user, and on any other server, stay as they are.
pub create-get_user_paths :
    (users : Users) (new : PermissionRow) (rows rows' : List PermissionRow)
    (permission : Permission) (user server : Bytes)
    → handle_create_path users new rows ≡ (rows', created permission)
    → get_user_paths_for_server user server rows'
      ≡ get_user_paths_for_server user server rows
        ++ (if is_of user server new then new.path ∷ [] else [])
unfolding get_user_paths_for_server
create-get_user_paths users new rows rows' permission user server made =
    let (eq, _) = create_rows users new rows rows' permission made in
    let parts = keep_append (is_of user server) rows (new ∷ []) in
    elim (Bool-cases (is_of user server new)) [
      | inl yes_ ↦
          rw (eq, parts, yes_, map_append (λ r. r.path) (keep (is_of user server) rows) (new ∷ []))
            refl
      | inr no_ ↦
          rw (eq, parts, no_, map_append (λ r. r.path) (keep (is_of user server) rows) []) refl
    ]

-- When a path is granted to a user on a server, every absolute path whose first words are those of
-- the granted path is allowed to that user on that server.
pub create-is_path_allowed :
    (users : Users) (new : PermissionRow) (rows rows' : List PermissionRow)
    (permission : Permission) (target : Bytes)
    → handle_create_path users new rows ≡ (rows', created permission)
    → is_abs target ≡ true
    → is_above (words new.path) (words target) ≡ true
    → is_path_allowed (some (get_user_paths_for_server new.user_id new.server_id rows')) target
      ≡ some true
create-is_path_allowed users new rows rows' permission target made abs above =
    let user = new.user_id in
    let server = new.server_id in
    let paths = get_user_paths_for_server user server rows in
    let own : is_of user server new ≡ true = rw (text_eq_refl user, text_eq_refl server) refl in
    let granted = create-get_user_paths users new rows rows' permission user server made in
    let rooted : is_abs new.path ≡ true =
      valid_abs new.path (create_rows users new rows rows' permission made).1.1 in
    let covered : covers target new.path ≡ true = rw (rooted, above) refl in
    let shown : get_user_paths_for_server user server rows' ≡ paths ++ new.path ∷ [] =
      granted ∙ ap (λ b. paths ++ (if b then new.path ∷ [] else [])) own in
    ap (λ ps. is_path_allowed (some ps) target) shown
    ∙ is_path_allowed-covers target (paths ++ new.path ∷ []) abs
    ∙ ap some (any_last (covers target) paths new.path covered)

keep_others :
    (new : PermissionRow) (rows : List PermissionRow)
    → any (conflicts new) rows ≡ false
    → keep (λ row. not (text_eq row.id new.id)) (rows ++ new ∷ []) ≡ rows
unfolding conflicts
keep_others new [] free = rw (text_eq_refl new.id) refl
keep_others new (row ∷ rows) free =
    let other : text_eq row.id new.id ≡ false = ground (arith, free) in
    let ih = keep_others new rows (ground (arith, free)) in rw (other, ih) refl

find_last :
    (new : PermissionRow) (rows : List PermissionRow)
    → any (conflicts new) rows ≡ false
    → find_by_id new.id (rows ++ new ∷ []) ≡ some new
unfolding conflicts find_by_id
find_last new [] free = rw (text_eq_refl new.id) refl
find_last new (row ∷ rows) free =
    let other : text_eq row.id new.id ≡ false = ground (arith, free) in
    rw other (find_last new rows (ground (arith, free)))

create_name :
    (users : Users) (new : PermissionRow) (rows rows' : List PermissionRow)
    (permission : Permission)
    → handle_create_path users new rows ≡ (rows', created permission)
    → (name : Bytes) × (users.username_of new.user_id ≡ some name)
unfolding handle_create_path create_permission
create_name users new rows rows' permission made =
    elim (Option-cases (users.username_of new.user_id)) [
      | inr (name, known) ↦ (name, known)
      | inl gone ↦ elim (Option-cases (validate_request_path new.path)) [
        | inr (m, bad) ↦ absurd (ground (arith, bad, made))
        | inl good ↦ absurd (ground (arith, good, gone, made))
      ]
    ]

-- When a path is granted and then revoked by the id of its row, on its server, the revocation
-- succeeds and the table is the one of before.
pub delete_path-create_path :
    (users : Users) (new : PermissionRow) (rows rows' : List PermissionRow)
    (permission : Permission)
    → handle_create_path users new rows ≡ (rows', created permission)
    → handle_delete_path users new.server_id new.id rows' ≡ (rows, no_content)
unfolding handle_delete_path delete_permission get_permission_by_id
delete_path-create_path users new rows rows' permission made =
    let (eq, facts) = create_rows users new rows rows' permission made in
    let (name, known) = create_name users new rows rows' permission made in
    let found = find_last new rows facts.0 in
    let rest = keep_others new rows facts.0 in
    let shorter : (length rows == length (rows ++ new ∷ [])) ≡ false =
      ground (arith, length-append rows (new ∷ [])) in
    let perm : Permission = record { row = new; username = name } in
    let get : get_permission_by_id users new.id (rows ++ new ∷ []) ≡ some perm =
      rw (found, known, get_permission_by_id) refl in
    let del : delete_permission new.id (rows ++ new ∷ []) ≡ some rows =
      rw (rest, shorter, delete_permission) refl in
    rw eq (rw (get, text_eq_refl new.server_id, del, handle_delete_path) refl)
