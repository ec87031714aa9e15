-- ===== src/Store/Servers.antt =====
-- hub/internal/store/servers.go: the table of servers, with the keys of hub/internal/migrate/migrations.
-- A statement of SQL is a function on the rows; none is the error of an operation. The database itself
-- does not fail. Times are the database's texts, an argument of each call; a new row comes last.
pub mod Updates
pub mod Unique
pub mod Tokens
pub mod Seen
pub mod Names
use aerodocs.Base.{
  Bool, false, not, ◌&&◌, ◌||◌, Option, none, some, List, [], ◌∷◌, ◌++◌, if◌then◌else◌, keep, any,
  Bytes, text, text_eq,
}

pub record Server : Type 0 where
  pub id : Bytes
  pub name : Bytes
  pub hostname : Option Bytes
  pub ip_address : Option Bytes
  pub os : Option Bytes
  pub status : Bytes
  pub registration_token : Option Bytes
  pub token_expires_at : Option Bytes
  pub agent_version : Option Bytes
  pub labels : Bytes
  pub last_seen_at : Option Bytes
  pub created_at : Bytes
  pub updated_at : Bytes

abbrev pub has_id : Bytes → Server → Bool
has_id id srv = text_eq srv.id id

abbrev pub has_name : Bytes → Server → Bool
has_name name srv = text_eq srv.name name

-- A comparison with NULL is not true.
abbrev pub is_text : Option Bytes → Bytes → Bool
is_text none t = false
is_text (some s) t = text_eq s t

abbrev pub has_token : Bytes → Server → Bool
has_token token srv = is_text srv.registration_token token

-- The row of `QueryRow`.
unfoldable pub query_row : (Server → Bool) → List Server → Option Server
query_row p [] = none
query_row p (srv ∷ rows) = if p srv then some srv else query_row p rows

unfoldable pub get_server_by_id : Bytes → List Server → Option Server
get_server_by_id id rows = query_row (has_id id) rows

unfoldable pub get_server_by_name : Bytes → List Server → Option Server
get_server_by_name name rows = query_row (has_name name) rows

unfoldable pub get_server_by_token : Bytes → List Server → Option Server
get_server_by_token token rows = query_row (has_token token) rows

-- The table's check of a status.
abbrev pub is_status : Bytes → Bool
is_status status =
    text_eq status (text "pending")
    || (text_eq status (text "online") || text_eq status (text "offline"))

abbrev pub has_same_token : Option Bytes → Server → Bool
has_same_token none srv = false
has_same_token (some token) srv = has_token token srv

-- A row with the id, the name or the registration token of a new row.
unfoldable pub conflicts : Server → Server → Bool
conflicts new srv =
    has_id new.id srv || (has_name new.name srv || has_same_token new.registration_token srv)

-- The times of `new` are those of the insertion, and it was not seen yet.
unfoldable pub create_server : Server → List Server → Option (List Server)
unfolding conflicts
create_server new rows =
    if any (conflicts new) rows || not (is_status new.status) then none else some (rows ++ new ∷ [])

-- The rows after an update of those with an id.
unfoldable pub update_at : Bytes → (Server → Server) → List Server → List Server
update_at id change [] = []
update_at id change (srv ∷ rows) =
    (if has_id id srv then change srv else srv) ∷ update_at id change rows

-- An update with its error that no row was affected.
unfoldable pub update_found : Bytes → (Server → Server) → List Server → Option (List Server)
unfolding update_at
update_found id change rows = if any (has_id id) rows then some (update_at id change rows) else none

unfoldable pub update_server : Bytes → Bytes → Bytes → Bytes → List Server → Option (List Server)
unfolding update_found
update_server now id name labels rows =
    if any (has_id id) rows && any (λ srv. not (has_id id srv) && has_name name srv) rows
    then none
    else update_found id (λ srv. record srv { name = name; labels = labels; updated_at = now }) rows

unfoldable pub delete_server : Bytes → List Server → Option (List Server)
delete_server id rows =
    if any (has_id id) rows then some (keep (λ srv. not (has_id id srv)) rows) else none

unfoldable pub delete_servers : List Bytes → List Server → List Server
delete_servers ids rows = keep (λ srv. not (any (λ id. has_id id srv) ids)) rows

pub record Activation : Type 0 where
  pub hostname : Bytes
  pub ip : Bytes
  pub os : Bytes
  pub agent_version : Bytes

unfoldable pub activated : Bytes → Activation → Server → Server
activated now a srv = record srv {
  hostname = some a.hostname;
  ip_address = some a.ip;
  os = some a.os;
  agent_version = some a.agent_version;
  status = text "pending";
  registration_token = none;
  token_expires_at = none;
  last_seen_at = some now;
  updated_at = now;
}

unfoldable pub activate_server : Bytes → Bytes → Activation → List Server → Option (List Server)
unfolding activated update_found
activate_server now id a rows = update_found id (activated now a) rows

unfoldable pub update_server_status : Bytes → Bytes → Bytes → List Server → Option (List Server)
unfolding update_found
update_server_status now id status rows =
    if any (has_id id) rows && not (is_status status)
    then none
    else update_found id (λ srv. record srv { status = status; updated_at = now }) rows

-- Also `SetServerIP`.
unfoldable pub update_server_ip : Bytes → Bytes → Bytes → List Server → List Server
unfolding update_at
update_server_ip now id ip rows =
    update_at id (λ srv. record srv { ip_address = some ip; updated_at = now }) rows

unfoldable pub update_server_last_seen : Bytes → Bytes → List Server → Option (List Server)
unfolding update_found
update_server_last_seen now id rows =
    update_found id (λ srv. record srv { last_seen_at = some now; updated_at = now }) rows

-- The rows after an update; an error, which the callers drop, leaves them as they are.
abbrev pub or_same : List Server → Option (List Server) → List Server
or_same rows none = rows
or_same rows (some rows') = rows'

unfoldable pub note_last_seen : Bytes → Bytes → List Server → List Server
unfolding update_server_last_seen
note_last_seen now id rows = or_same rows (update_server_last_seen now id rows)

unfoldable pub get_online_servers_not_in : List Bytes → List Server → List Server
get_online_servers_not_in active_ids rows =
    keep (λ srv. text_eq srv.status (text "online") && not (any (λ id. has_id id srv) active_ids))
      rows
