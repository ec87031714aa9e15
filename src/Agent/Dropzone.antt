-- ===== src/Agent/Dropzone.antt =====
-- agent/internal/dropzone/dropzone.go: files that arrive in chunks. The disk is a table of files by
-- path; a file handle is the path of its file. Whether opening and renaming succeed, and how much is
-- written before a write fails, are arguments of a chunk.
pub mod Laws
pub mod Upload
mod Tests
use aerodocs.Messages.{FileUploadAck}
use aerodocs.Paths.{dot, dot_dot, slash, base, join_path}
use aerodocs.Base.{
  ℕ, ◌+◌, ◌*◌, Bool, true, false, not, ◌||◌, Option, none, some, [], ◌∷◌, ◌++◌, ltb, leb, ◌==◌,
  if◌then◌else◌, Result, returns, raises, length, take, Bytes, text, text_eq, Table, lookup, delete,
  assign,
}

abbrev pub max_upload_size : ℕ
max_upload_size = 100 * 1024 * 1024

abbrev pub max_concurrent_uploads : ℕ
max_concurrent_uploads = 10

pub record UploadState : Type 0 where
  pub file : Bytes
  pub bytes : ℕ
  pub final_name : Bytes

pub record Dropzone : Type 0 where
  pub dir : Bytes
  pub uploads : Table UploadState
  pub disk : Table Bytes

-- What the system does for a chunk: `written` is none for a complete write.
pub record System : Type 0 where
  pub opens : Bool
  pub written : Option ℕ
  pub renames : Bool

pub record Chunk : Type 0 where
  pub filename : Bytes
  pub data_bytes : Bytes
  pub done : Bool
  pub system : System

unfoldable pub sanitize_filename : Bytes → Bytes
sanitize_filename name =
    let b = base name in
    if text_eq b dot || (text_eq b dot_dot || text_eq b (slash ∷ [])) then [] else b

abbrev pub refuse : Bytes → Bytes → FileUploadAck
refuse request_id message = record { request_id = request_id; success = false; error = message }

unfoldable pub temp_path : Bytes → Bytes → Bytes
temp_path dir request_id = join_path dir (text ".upload-" ++ request_id)

-- The message of the error, or the upload, whose file is empty.
unfoldable pub open_new_upload : Bytes → Chunk → Dropzone → Result (Dropzone × UploadState)
unfolding sanitize_filename
open_new_upload request_id c d =
    let name = sanitize_filename c.filename in
    let tmp = temp_path d.dir request_id in
    if leb max_concurrent_uploads (length d.uploads)
    then raises (text "too many concurrent uploads")
    else if text_eq c.filename []
    then raises (text "no filename provided")
    else if text_eq name []
    then raises (text "invalid filename")
    else if not c.system.opens
    then raises (text "file operation failed")
    else returns (
      record d { disk = assign tmp [] d.disk },
      record { file = tmp; bytes = 0; final_name = name },
    )

abbrev pub contents : Bytes → Table Bytes → Bytes
contents path disk = elim (lookup path disk) [ none ↦ [] | some content ↦ content ]

abbrev pub append_to : Bytes → Bytes → Table Bytes → Table Bytes
append_to path content disk = assign path (contents path disk ++ content) disk

-- The last part of `HandleChunk`, for the upload of a request.
unfoldable pub complete : Bytes → Chunk → UploadState → Dropzone → Dropzone × Option FileUploadAck
complete request_id c state d =
    let final_path = join_path d.dir state.final_name in
    let content = contents state.file d.disk in
    if not c.done
    then (d, none)
    else if not c.system.renames
    then (
      record d { uploads = delete request_id d.uploads; disk = delete state.file d.disk },
      some (refuse request_id (text "file operation failed")),
    )
    else (
      record d {
        uploads = delete request_id d.uploads;
        disk = assign final_path content (delete state.file d.disk);
      },
      some (record { request_id = request_id; success = true; error = [] }),
    )

-- The middle part: the data is written, within the limit.
unfoldable pub write_chunk :
    Bytes → Chunk → UploadState → Dropzone → Dropzone × Option FileUploadAck
unfolding complete
write_chunk request_id c state d =
    if ltb max_upload_size (state.bytes + length c.data_bytes)
    then (
      record d { uploads = delete request_id d.uploads; disk = delete state.file d.disk },
      some (refuse request_id (text "file size limit exceeded")),
    )
    else elim c.system.written [
      | some n ↦ (
        record d {
          uploads = delete request_id d.uploads;
          disk = append_to state.file (take n c.data_bytes) d.disk;
        },
        some (refuse request_id (text "file operation failed")),
      )
      | none ↦
          let state' = record state { bytes = state.bytes + length c.data_bytes } in
          complete request_id c state' (record d {
            uploads = assign request_id state' d.uploads;
            disk = append_to state.file c.data_bytes d.disk;
          })
    ]

unfoldable pub take_chunk : Bytes → Chunk → UploadState → Dropzone → Dropzone × Option FileUploadAck
unfolding write_chunk
take_chunk request_id c state d =
    if length c.data_bytes == 0
    then complete request_id c state d
    else write_chunk request_id c state d

unfoldable pub handle_chunk : Bytes → Chunk → Dropzone → Dropzone × Option FileUploadAck
unfolding open_new_upload take_chunk
handle_chunk request_id c d = elim (lookup request_id d.uploads) [
  | some state ↦ take_chunk request_id c state d
  | none ↦ elim (open_new_upload request_id c d) [
    | raises message ↦ (d, some (refuse request_id message))
    | returns (d', state) ↦
        take_chunk request_id c state (record d' { uploads = assign request_id state d'.uploads })
  ]
]

abbrev remove_files : Table UploadState → Table Bytes → Table Bytes
remove_files [] disk = disk
remove_files ((id, state) ∷ uploads) disk = remove_files uploads (delete state.file disk)

unfoldable pub cleanup : Dropzone → Dropzone
cleanup d = record d { uploads = []; disk = remove_files d.uploads d.disk }
