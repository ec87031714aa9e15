-- ===== src/Agent/Access.antt =====
-- agent/internal/client/client.go, the handlers of requests for files: the allowed paths of the agent,
-- the alias of the dropzone's directory, and the table of log tails, whose values are their channels.
-- What `filepath.EvalSymlinks` and `os.Remove` return is a parameter.
pub mod Laws
pub mod Tails
pub mod Lost
pub mod Deletion
mod Tests
use aerodocs.Messages.{FileListResponse, FileReadResponse, FileDeleteResponse, ℤ}
use aerodocs.Paths.{dot, dot_dot, slash, clean, rel, join_path}
use aerodocs.Agent.FileBrowser.{FileSystem, list_dir, read_file, list_error, read_error}
use aerodocs.Base.{
  ℕ, suc, Bool, true, false, not, ◌&&◌, ◌||◌, Option, none, some, List, [], ◌∷◌, ◌++◌, leb,
  if◌then◌else◌, length, drop, any, Bytes, text, text_eq, has_prefix, Table, lookup, delete, assign,
}

abbrev pub max_tail_sessions : ℕ
max_tail_sessions = 50

abbrev pub dropzone_path_alias : Bytes
dropzone_path_alias = text "veyport://dropzone"

unfoldable pub path_within_root : Bytes → Bytes → Bool
path_within_root path root = elim (rel root path) [
  | none ↦ false
  | some r ↦
      text_eq r dot || (not (has_prefix r (dot_dot ++ slash ∷ [])) && not (text_eq r dot_dot))
]

unfoldable pub candidate_allowed_roots : (Bytes → Option Bytes) → Bytes → List Bytes
candidate_allowed_roots eval_symlinks root = elim (eval_symlinks (clean root)) [
  | none ↦ clean root ∷ []
  | some resolved ↦
      if text_eq (clean resolved) (clean root)
      then clean root ∷ []
      else clean root ∷ clean resolved ∷ []
]

unfoldable pub path_within_allowed_roots : (Bytes → Option Bytes) → Bytes → List Bytes → Bool
path_within_allowed_roots eval_symlinks path [] = false
path_within_allowed_roots eval_symlinks path (allowed ∷ allowed_paths) =
    any (path_within_root path) (candidate_allowed_roots eval_symlinks allowed)
    || path_within_allowed_roots eval_symlinks path allowed_paths

unfoldable pub is_path_allowed : (Bytes → Option Bytes) → Bytes → List Bytes → Bool
is_path_allowed eval_symlinks path [] = true
is_path_allowed eval_symlinks path (allowed ∷ allowed_paths) =
    let cleaned = clean path in
    if not (path_within_allowed_roots eval_symlinks cleaned (allowed ∷ allowed_paths))
    then false
    else elim (eval_symlinks cleaned) [
      | none ↦ true
      | some resolved ↦
          path_within_allowed_roots eval_symlinks (clean resolved) (allowed ∷ allowed_paths)
    ]

unfoldable pub resolve_agent_path : Bytes → Bytes → Bytes
resolve_agent_path dropzone_dir path =
    let prefix = dropzone_path_alias ++ slash ∷ [] in
    if text_eq path dropzone_path_alias
    then dropzone_dir
    else if has_prefix path prefix
    then join_path dropzone_dir (clean (drop (length prefix) path))
    else path

module _ (fs : FileSystem) (dropzone_dir : Bytes) (allowed_paths : List Bytes) where
  unfoldable pub handle_file_list_request : Bytes → Bytes → FileListResponse
  handle_file_list_request request_id path =
      let resolved = resolve_agent_path dropzone_dir path in
      if not (is_path_allowed fs.eval_symlinks resolved allowed_paths)
      then record (list_error (text "path not in allowed list")) { request_id = request_id }
      else record (list_dir fs resolved) { request_id = request_id }

  unfoldable pub handle_file_read_request :
      (Bytes → Bytes) → Bytes → Bytes → ℤ → ℤ → FileReadResponse
  handle_file_read_request to_lower request_id path offset limit =
      let resolved = resolve_agent_path dropzone_dir path in
      if not (is_path_allowed fs.eval_symlinks resolved allowed_paths)
      then record (read_error (text "path not in allowed list")) { request_id = request_id }
      else record (read_file fs to_lower resolved offset limit) { request_id = request_id }

-- The table of the stop channels, the number of the next channel, and the channels that were closed.
pub record TailSessions : Type 0 where
  pub sessions : Table ℕ
  pub next : ℕ
  pub closed : List ℕ

-- What a request for a log stream does: an error to the hub, or a tail of a path with its channel.
pub data TailStart : Type 0 where
  reports : Bytes → TailStart
  starts : Bytes → ℕ → TailStart

unfoldable pub handle_log_stream_request :
    (Bytes → Option Bytes)
    → Bytes
    → List Bytes
    → Bytes
    → Bytes
    → TailSessions
    → TailSessions × TailStart
handle_log_stream_request eval_symlinks dropzone_dir allowed_paths request_id path t =
    let resolved = resolve_agent_path dropzone_dir path in
    if not (is_path_allowed eval_symlinks resolved allowed_paths)
    then (t, reports (text "error: path not in allowed list"))
    else if leb max_tail_sessions (length t.sessions)
    then (t, reports (text "error: too many active tail sessions"))
    else (
      record t { sessions = assign request_id t.next t.sessions; next = suc t.next },
      starts resolved t.next,
    )

unfoldable pub handle_log_stream_stop : Bytes → TailSessions → TailSessions
handle_log_stream_stop request_id t = elim (lookup request_id t.sessions) [
  | none ↦ t
  | some stop ↦ record t { sessions = delete request_id t.sessions; closed = stop ∷ t.closed }
]

-- The response, and the path that `os.Remove` was called with.
unfoldable pub handle_file_delete_request :
    (Bytes → Bool) → Bytes → Bytes → Bytes → FileDeleteResponse × Option Bytes
handle_file_delete_request remove dropzone_dir request_id path =
    let clean_path = clean (resolve_agent_path dropzone_dir path) in
    if not (has_prefix clean_path (clean dropzone_dir ++ slash ∷ []))
    then (
      record {
        request_id = request_id;
        success = false;
        error = text "deletion only allowed from dropzone directory";
      },
      none,
    )
    else if not (remove clean_path)
    then (
      record { request_id = request_id; success = false; error = text "file operation failed" },
      some clean_path,
    )
    else (record { request_id = request_id; success = true; error = [] }, some clean_path)
