-- ===== src/Server/Files.antt =====
-- hub/internal/server/handlers_files.go, with requireAgent and sendAgentRequest of agent_request.go: who
-- may list and read which files of a server. The rows of the table of permissions that belong to the
-- user and the server, the connection and the agent's answer are arguments of a request. Base64 is a
-- parameter.
pub mod Laws
mod Tests
use aerodocs.Messages.{FileNode, FileListResponse, FileReadResponse, ℤ, pos, negsuc}
use aerodocs.Paths.{dot, dot_dot, slash, clean, rel}
use aerodocs.Base.{
  ℕ, zero, suc, ◌+◌, ◌-◌, ◌*◌, ◌/◌, ◌%◌, ◌^◌, ◌≤◌, ◌<◌, ◌≡◌, refl, sym, ap, ◌∙◌, ◌≢◌, ◌↔◌, ◌⊎◌, inl,
  inr, Bool, true, false, not, ◌&&◌, ◌||◌, Option, none, some, List, [], ◌∷◌, ◌++◌, map, arith, ltb,
  leb, ◌==◌, ==_iff, if◌then◌else◌, Bool-cases, Option-cases, ◌>>=◌, length, length-append, take,
  drop, take-append-drop, length-take, length-drop, get_last?, keep, length-keep-le, any, All,
  All-append, All-keep, Bytes, text, text_eq, text_eq_refl, eq_of_text_eq, text_eq_iff,
  ne_of_text_eq, has_prefix, contains, has_prefix-append, eq_of_has_prefix, Lacks, split_unique,
  Table, lookup, delete, assign, Distinct, lookup-delete, lookup-assign, lookup-delete_self,
  lookup-assign_self, delete-Distinct, assign-Distinct, length-delete-le, length-delete-lt,
  length-assign-le, length-assign_old, delete_fresh, Entries, delete-Entries, assign-Entries,
  lookup-Entries, lookup-keep,
}

abbrev pub max_file_read_size : ℕ
max_file_read_size = 1048576

abbrev pub max_file_view_size : ℕ
max_file_view_size = 10485760

-- What is written to the response.
pub data Reply : Type 0 where
  fails : ℕ → Bytes → Reply
  lists : List FileNode → Reply
  shows : Bytes → ℕ → Bytes → Reply

-- What a request does besides: a message to the agent, an entry of the audit log.
pub data Effect : Type 0 where
  asks_list : Bytes → Bytes → Effect
  asks_read : Bytes → Bytes → ℤ → ℕ → Effect
  audits_read : Bytes → Bytes → Bytes → Effect

-- How a request to the agent ends.
pub data Answer : Type 0 where
  not_sent : Answer
  timed_out : Answer
  file_list : FileListResponse → Answer
  file_read : FileReadResponse → Answer
  other_message : Answer

pub record Request : Type 0 where
  pub user_id : Bytes
  pub role : Bytes
  pub server_id : Bytes
  pub path : Bytes
  -- `GetUserPathsForServer`; none is an error of the database.
  pub paths : Option (List Bytes)
  pub connected : Bool
  pub answer : Answer

-- The message of the error, if there is one.
unfoldable pub validate_request_path : Bytes → Option Bytes
validate_request_path path =
    if not (has_prefix path (slash ∷ []))
    then some (text "path must be absolute")
    else if contains path dot_dot
    then some (text "path traversal not allowed")
    else none

-- `rel == "." || (!strings.HasPrefix(rel, "../") && rel != "..")`, false if `rel` is an error.
unfoldable pub is_inside : Option Bytes → Bool
is_inside none = false
is_inside (some r) =
    text_eq r dot || (not (has_prefix r (dot_dot ++ slash ∷ [])) && not (text_eq r dot_dot))

unfoldable pub is_under_root : Bytes → List Bytes → Bool
unfolding is_inside
is_under_root cleaned_req [] = false
is_under_root cleaned_req (allowed ∷ paths) =
    let rest = is_under_root cleaned_req paths in
    if is_inside (rel (clean allowed) cleaned_req) then true else rest

unfoldable pub is_path_allowed : Option (List Bytes) → Bytes → Option Bool
unfolding is_under_root
is_path_allowed none requested = none
is_path_allowed (some paths) requested = some (is_under_root (clean requested) paths)

abbrev pub or_denied : Option Bool → Bool
or_denied none = false
or_denied (some b) = b

-- The error response, if access is denied.
unfoldable pub check_file_access : Request → Option Reply
unfolding is_path_allowed
check_file_access r = elim (validate_request_path r.path) [
  | some message ↦ some (fails 400 message)
  | none ↦
      if text_eq r.role (text "admin")
      then none
      else if or_denied (is_path_allowed r.paths r.path)
      then none
      else some (fails 403 (text "access denied"))
]

unfoldable pub require_agent : Request → Option Reply
require_agent r = if r.connected then none else some (fails 502 (text "agent not connected"))

unfoldable pub after_list : Answer → Reply
after_list not_sent = fails 502 (text "agent not connected")
after_list timed_out = fails 504 (text "agent timeout")
after_list (file_list resp) =
    if not (text_eq resp.error []) then fails 404 resp.error else lists resp.files
after_list (file_read resp) = fails 500 (text "unexpected response type")
after_list other_message = fails 500 (text "unexpected response type")

unfoldable pub handle_list_files : Request → Reply × List Effect
unfolding after_list
handle_list_files r0 =
    let r = if text_eq r0.path [] then record r0 { path = text "/" } else r0 in
    elim (check_file_access r) [
      | some denied ↦ (denied, [])
      | none ↦ elim (require_agent r) [
        | some gone ↦ (gone, [])
        | none ↦ (after_list r.answer, asks_list r.server_id r.path ∷ [])
      ]
    ]

module _ (encode_to_string : Bytes → Bytes) where
  unfoldable pub after_read : Request → Answer → Reply × List Effect
  after_read r not_sent = (fails 502 (text "agent not connected"), [])
  after_read r timed_out = (fails 504 (text "agent timeout"), [])
  after_read r (file_list resp) = (fails 500 (text "unexpected response type"), [])
  after_read r other_message = (fails 500 (text "unexpected response type"), [])
  after_read r (file_read resp) =
      if not (text_eq resp.error [])
      then (fails 404 resp.error, [])
      else if ltb max_file_view_size resp.total_size
      then (fails 413 (text "file too large for viewing"), [])
      else (
        shows (encode_to_string resp.content) resp.total_size resp.mime_type,
        audits_read r.user_id r.server_id r.path ∷ [],
      )

  unfoldable pub handle_read_file : Request → Reply × List Effect
  unfolding after_read
  handle_read_file r =
      if text_eq r.path []
      then (fails 400 (text "path is required"), [])
      else elim (check_file_access r) [
        | some denied ↦ (denied, [])
        | none ↦ elim (require_agent r) [
          | some gone ↦ (gone, [])
          | none ↦
              let (reply, effects) = after_read r r.answer in
              (reply, asks_read r.server_id r.path (negsuc 0) max_file_read_size ∷ effects)
        ]
      ]
