-- ===== src/Agent/FileBrowser.antt =====
-- agent/internal/filebrowser/filebrowser.go: lists directories and reads files. The file system is a
-- parameter: what `filepath.EvalSymlinks`, `os.ReadDir`, `os.Open` and the calls on an open file return;
-- none is their error.
pub mod Laws
mod Tests
use aerodocs.Messages.{FileNode, FileListResponse, FileReadResponse, ℤ, pos, negsuc}
use aerodocs.Paths.{dot_dot, slash, is_abs, clean, base, join_path}
use aerodocs.Base.{
  ℕ, ◌-◌, Bool, true, false, not, ◌&&◌, ◌||◌, Option, none, some, List, [], ◌∷◌, ◌++◌, ltb, ◌==◌,
  if◌then◌else◌, Result, returns, raises, any, Bytes, text, text_eq, has_prefix, contains,
}

abbrev pub max_read_size : ℕ
max_read_size = 1048576

abbrev pub blocked_paths : List Bytes
blocked_paths =
    text "/etc/shadow"
    ∷ text "/etc/gshadow"
    ∷ text "/etc/sudoers"
    ∷ text "/etc/sudoers.d"
    ∷ text "/etc/veyport"
    ∷ text "/root/.ssh"
    ∷ text "/proc/self"
    ∷ text "/proc/kcore"
    ∷ text "/sys/firmware"
    ∷ []

abbrev pub blocked_prefixes : List Bytes
blocked_prefixes = text "/proc/" ∷ text "/sys/kernel/" ∷ []

abbrev pub is_at_or_below : Bytes → Bytes → Bool
is_at_or_below cleaned blocked =
    text_eq cleaned blocked || has_prefix cleaned (blocked ++ slash ∷ [])

unfoldable pub is_blocked_path : Bytes → Bool
is_blocked_path path =
    any (is_at_or_below path) blocked_paths || any (has_prefix path) blocked_prefixes

-- The error's message, if there is one.
unfoldable pub validate_path : Bytes → Option Bytes
validate_path path =
    if contains path dot_dot
    then some (text "path traversal not allowed")
    else if not (is_abs (clean path))
    then some (text "path must be absolute")
    else if is_blocked_path (clean path)
    then some (text "access to this path is restricted")
    else none

-- The file that a directory entry names.
pub record DirEntry : Type 0 where
  pub name : Bytes
  pub is_dir : Bool
  -- Whether its mode is that of a regular file, and of a directory, and its size.
  pub info : Option (Bool × Bool × ℕ)

pub record OpenFile : Type 0 where
  -- Whether it is a directory, and its size.
  pub stat : Option (Bool × ℕ)
  pub seeks : ℕ → Bool
  -- `io.ReadFull` from a position into a buffer of a length: what was read up to the end of the file.
  pub read_full : ℕ → ℕ → Option Bytes

pub record FileSystem : Type 0 where
  pub eval_symlinks : Bytes → Option Bytes
  pub read_dir : Bytes → Option (List DirEntry)
  pub open_file : Bytes → Option OpenFile
  pub is_root : Bool
  pub access : Bytes → Bool

-- `sort.Slice` by name; the names of a directory's entries differ.
abbrev pub less : Bytes → Bytes → Bool
less a [] = false
less [] (b ∷ bs) = true
less (a ∷ as') (b ∷ bs) = if a == b then less as' bs else ltb a b

abbrev pub insert_by_name : FileNode → List FileNode → List FileNode
insert_by_name n [] = n ∷ []
insert_by_name n (m ∷ ms) =
    let rest = insert_by_name n ms in if less m.name n.name then m ∷ rest else n ∷ m ∷ ms

abbrev pub sort_by_name : List FileNode → List FileNode
sort_by_name [] = []
sort_by_name (n ∷ ns) = insert_by_name n (sort_by_name ns)

abbrev pub list_error : Bytes → FileListResponse
list_error message = record { request_id = []; files = []; error = message }

abbrev pub read_error : Bytes → FileReadResponse
read_error message = record {
  request_id = [];
  content = [];
  total_size = 0;
  mime_type = [];
  error = message;
}

-- `clampLimit`, and `computeTailOffset` for a limit above 0.
unfoldable pub clamp_limit : ℤ → ℕ
clamp_limit (negsuc n) = max_read_size
clamp_limit (pos n) = if (n == 0) || ltb max_read_size n then max_read_size else n

unfoldable pub compute_tail_offset : ℤ → ℕ → ℕ → ℕ
compute_tail_offset (pos offset) limit total_size = offset
compute_tail_offset (negsuc n) limit total_size =
    if ltb limit total_size then total_size - limit else 0

-- `filepath.Ext` of a base name.
unfoldable pub ext : Bytes → Bytes
ext [] = []
ext (c ∷ cs) =
    let rest = ext cs in if not (text_eq rest []) then rest else if c == 46 then c ∷ cs else []

abbrev pub mime_types : List (List Bytes × Bytes)
mime_types =
    (
      text ".txt" ∷ text ".conf" ∷ text ".cfg" ∷ text ".ini" ∷ text ".log" ∷ text ".env" ∷ [],
      text "text/plain",
    )
    ∷ (text ".json" ∷ [], text "application/json")
    ∷ (text ".md" ∷ text ".markdown" ∷ [], text "text/markdown")
    ∷ (text ".yaml" ∷ text ".yml" ∷ [], text "text/yaml")
    ∷ (text ".xml" ∷ [], text "text/xml")
    ∷ (text ".html" ∷ text ".htm" ∷ [], text "text/html")
    ∷ (text ".css" ∷ [], text "text/css")
    ∷ (text ".js" ∷ [], text "text/javascript")
    ∷ (text ".go" ∷ [], text "text/x-go")
    ∷ (text ".py" ∷ [], text "text/x-python")
    ∷ (text ".rs" ∷ [], text "text/x-rust")
    ∷ (text ".sh" ∷ text ".bash" ∷ [], text "text/x-sh")
    ∷ (text ".toml" ∷ [], text "text/x-toml")
    ∷ (text ".sql" ∷ [], text "text/x-sql")
    ∷ []

abbrev pub find_mime : Bytes → List (List Bytes × Bytes) → Bytes
find_mime e [] = text "application/octet-stream"
find_mime e ((exts, mime) ∷ types) =
    let rest = find_mime e types in if any (text_eq e) exts then mime else rest

-- `to_lower` is `strings.ToLower`.
unfoldable pub detect_mime : (Bytes → Bytes) → Bytes → Bytes
detect_mime to_lower filename = find_mime (to_lower (ext filename)) mime_types

module _ (fs : FileSystem) where
  unfoldable pub resolve_and_validate_symlink : Bytes → Result Bytes
  resolve_and_validate_symlink path = elim (fs.eval_symlinks path) [
    | none ↦ raises (text "cannot access path")
    | some resolved ↦ elim (validate_path resolved) [
      | some message ↦ raises (text "access to this path is restricted")
      | none ↦
          if not (text_eq resolved (clean path))
            && not (has_prefix resolved (clean path ++ slash ∷ []))
          then raises (text "path resolves outside requested directory")
          else returns resolved
    ]
  ]

  unfoldable pub build_file_node : Bytes → Bytes → DirEntry → Option FileNode
  build_file_node base_path resolved_path e = elim e.info [
    | none ↦ none
    | some (is_regular, mode_is_dir, size) ↦
        if not is_regular && not mode_is_dir
        then none
        else some (record {
          name = e.name;
          path = join_path base_path e.name;
          is_dir = e.is_dir;
          size = size;
          readable = if fs.is_root then true else fs.access (join_path resolved_path e.name);
        })
  ]

  -- The nodes of the directories, and of the files, in the order of the entries.
  unfoldable pub build_nodes : Bytes → Bytes → List DirEntry → List FileNode × List FileNode
  unfolding build_file_node
  build_nodes base_path resolved_path [] = ([], [])
  build_nodes base_path resolved_path (e ∷ es) =
      let (dirs, files) = build_nodes base_path resolved_path es in
      elim (build_file_node base_path resolved_path e) [
        | none ↦ (dirs, files)
        | some node ↦ if e.is_dir then (node ∷ dirs, files) else (dirs, node ∷ files)
      ]

  unfoldable pub list_dir : Bytes → FileListResponse
  unfolding build_nodes resolve_and_validate_symlink
  list_dir path = elim (validate_path path) [
    | some message ↦ list_error message
    | none ↦ elim (resolve_and_validate_symlink path) [
      | raises message ↦ list_error message
      | returns resolved ↦ elim (fs.read_dir resolved) [
        | none ↦ list_error (text "cannot read directory")
        | some entries ↦
            let (dirs, files) = build_nodes path resolved entries in
            record { request_id = []; files = sort_by_name dirs ++ sort_by_name files; error = [] }
      ]
    ]
  ]

  -- The part of `ReadFile` on an open file.
  unfoldable pub read_open : (Bytes → Bytes) → Bytes → ℤ → ℕ → OpenFile → FileReadResponse
  unfolding compute_tail_offset detect_mime
  read_open to_lower path offset limit f = elim f.stat [
    | none ↦ read_error (text "cannot read file")
    | some (is_dir, total_size) ↦
        let start = compute_tail_offset offset limit total_size in
        if is_dir
        then read_error (text "path is a directory")
        else if ltb 0 start && not (f.seeks start)
        then read_error (text "cannot read file")
        else elim (f.read_full start limit) [
          | none ↦ read_error (text "cannot read file")
          | some content ↦ record {
            request_id = [];
            content = content;
            total_size = total_size;
            mime_type = detect_mime to_lower (base path);
            error = [];
          }
        ]
  ]

  unfoldable pub read_file : (Bytes → Bytes) → Bytes → ℤ → ℤ → FileReadResponse
  unfolding read_open resolve_and_validate_symlink clamp_limit
  read_file to_lower path offset limit = elim (validate_path path) [
    | some message ↦ read_error message
    | none ↦ elim (resolve_and_validate_symlink path) [
      | raises message ↦ read_error message
      | returns resolved ↦ elim (fs.open_file resolved) [
        | none ↦ read_error (text "cannot read file")
        | some f ↦ read_open to_lower path offset (clamp_limit limit) f
      ]
    ]
  ]
