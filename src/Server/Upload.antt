-- ===== src/Server/Upload.antt =====
-- hub/internal/server/handlers_upload.go: a file goes from the body of a request to the agent, in chunks,
-- and the files of the agent's dropzone are listed and deleted. The parts of the body, the reads of the
-- file, whether a message reaches the agent, and the agent's answer are arguments of a request.
pub mod Delivery
pub mod Laws
pub mod Aborted
mod Tests
use aerodocs.Messages.{FileNode, FileListResponse, FileUploadAck, FileDeleteResponse}
use aerodocs.Paths.{dot, slash, base}
use aerodocs.Base.{
  ℕ, suc, ◌+◌, ◌*◌, Bool, true, false, not, ◌||◌, Option, none, some, List, [], ◌∷◌, ◌++◌, ltb,
  ◌==◌, if◌then◌else◌, length, Bytes, text, text_eq, has_prefix,
}

abbrev pub max_upload_size : ℕ
max_upload_size = 100 * 1024 * 1024

abbrev pub agent_dropzone_path : Bytes
agent_dropzone_path = text "veyport://dropzone"

-- A FileUploadRequest, without its request id.
pub record UploadMessage : Type 0 where
  pub filename : Bytes
  pub chunk : Bytes
  pub done : Bool

-- What the calls of `file.Read` return: bytes and no error, bytes and the end, bytes and another error.
pub data Reader : Type 0 where
  gives : Bytes → Reader → Reader
  ends : Bytes → Reader
  breaks : Bytes → Reader

-- What the calls of `mr.NextPart` return: a part (its form name, its file name and its content), the
-- end, or another error.
pub data Parts : Type 0 where
  part : Bytes → Bytes → Reader → Parts → Parts
  no_more : Parts
  invalid : Parts

-- An uploadStreamError.
pub record UploadStreamError : Type 0 where
  pub status_code : ℕ
  pub message : Bytes

abbrev pub upload_error : ℕ → Bytes → UploadStreamError
upload_error status message = record { status_code = status; message = message }

-- A result, or an uploadStreamError.
pub data Streamed {ℓ} (A : Type ℓ) : Type ℓ where
  gets : A → Streamed A
  stops : UploadStreamError → Streamed A

unfoldable pub find_file : Parts → Streamed (Reader × Bytes)
find_file no_more = stops (upload_error 400 (text "no file provided"))
find_file invalid = stops (upload_error 400 (text "invalid multipart body"))
find_file (part form_name file_name content rest) =
    let later = find_file rest in
    let filename = base file_name in
    if not (text_eq form_name (text "file"))
    then later
    else if text_eq filename [] || (text_eq filename dot || text_eq filename (slash ∷ []))
    then stops (upload_error 400 (text "filename is required"))
    else gets (content, filename)

-- `media` is `mime.ParseMediaType`: the type and the parameter `boundary`, which may be empty.
unfoldable pub parse_multipart_file_stream :
    Bytes → Option (Bytes × Bytes) → Parts → Streamed (Reader × Bytes)
unfolding find_file
parse_multipart_file_stream content_type media parts =
    if text_eq content_type []
    then stops (upload_error 400 (text "missing Content-Type header"))
    else elim media [
      | none ↦ stops (upload_error 400 (text "expected multipart/form-data"))
      | some (media_type, boundary) ↦
          if not (has_prefix media_type (text "multipart/"))
          then stops (upload_error 400 (text "expected multipart/form-data"))
          else if text_eq boundary []
          then stops (upload_error 400 (text "missing multipart boundary"))
          else find_file parts
    ]

-- The name for the first chunk, and none for the others; the flag is then cleared.
unfoldable pub chunk_filename : Bytes → Bool → Bytes × Bool
chunk_filename filename false = ([], false)
chunk_filename filename true = (filename, false)

-- The messages so far, and the end of the stream. `sends` tells whether the message of a number is sent.
abbrev pub Progress : Type 0
Progress = List UploadMessage × Streamed ℕ

unfoldable pub send_final_chunk : (ℕ → Bool) → ℕ → ℕ → Progress
send_final_chunk sends count total =
    if sends count
    then (record { filename = []; chunk = []; done = true } ∷ [], gets total)
    else ([], stops (upload_error 502 (text "failed to send to agent")))

-- The loop's treatment of what one `Read` returned; `continue` is what follows it.
unfoldable pub send_read :
    (ℕ → Bool) → Bytes → Bytes → ℕ → Bool → ℕ → (ℕ → Bool → ℕ → Progress) → Progress
unfolding chunk_filename
send_read sends filename read count is_first total continue =
    let total' = total + length read in
    let name = chunk_filename filename is_first in
    if length read == 0
    then continue count is_first total
    else if ltb max_upload_size total'
    then ([], stops (upload_error 413 (text "file too large (max 100MB)")))
    else if not (sends count)
    then ([], stops (upload_error 502 (text "failed to send to agent")))
    else (
      record { filename = name.0; chunk = read; done = false }
          ∷ (continue (suc count) name.1 total').0,
      (continue (suc count) name.1 total').1,
    )

unfoldable pub stream_file_to_agent : (ℕ → Bool) → Bytes → Reader → ℕ → Bool → ℕ → Progress
unfolding send_read send_final_chunk
stream_file_to_agent sends filename (gives read reader) count is_first total =
    send_read sends filename read count is_first total
      (λ c f t. stream_file_to_agent sends filename reader c f t)
stream_file_to_agent sends filename (ends read) count is_first total =
    send_read sends filename read count is_first total (λ c f t. send_final_chunk sends c t)
stream_file_to_agent sends filename (breaks read) count is_first total =
    send_read sends filename read count is_first total
      (λ c f t. ([], stops (upload_error 500 (text "failed to read file"))))

-- What comes on the channel of a request, or the timeout.
pub data Answer : Type 0 where
  not_sent timed_out other_message : Answer
  upload_ack : FileUploadAck → Answer
  delete_response : FileDeleteResponse → Answer
  list_response : FileListResponse → Answer

pub data Reply : Type 0 where
  fails : ℕ → Bytes → Reply
  uploaded : Bytes → ℕ → Reply
  no_content : Reply
  lists : List FileNode → Reply

-- The entry of the audit log, where there is one.
unfoldable pub after_ack : Bytes → ℕ → Answer → Reply × Option Bytes
after_ack filename total (upload_ack ack) =
    if not ack.success
    then (fails 500 (text "upload failed: " ++ ack.error), none)
    else (uploaded filename total, some filename)
after_ack filename total timed_out = (fails 504 (text "upload timeout"), none)
after_ack filename total _ = (fails 500 (text "unexpected response type"), none)

pub record UploadRequest : Type 0 where
  pub content_type : Bytes
  pub media : Option (Bytes × Bytes)
  pub parts : Parts
  pub connected : Bool
  pub sends : ℕ → Bool

-- `answer` depends on the messages that the agent got.
unfoldable pub handle_upload_file :
    (List UploadMessage → Answer) → UploadRequest → List UploadMessage × (Reply × Option Bytes)
unfolding parse_multipart_file_stream stream_file_to_agent after_ack
handle_upload_file answer r = elim (parse_multipart_file_stream r.content_type r.media r.parts) [
  | stops e ↦ ([], (fails e.status_code e.message, none))
  | gets (reader, filename) ↦
      if not r.connected
      then ([], (fails 502 (text "agent not connected"), none))
      else (let (sent, end) = stream_file_to_agent r.sends filename reader 0 true 0 in
          elim end [
            | stops e ↦ (sent, (fails e.status_code e.message, none))
            | gets total ↦ (sent, after_ack filename total (answer sent))
          ])
]

-- `sendAgentRequest` on a request that was not answered.
abbrev pub unanswered : Answer → Reply
unanswered not_sent = fails 502 (text "agent not connected")
unanswered timed_out = fails 504 (text "agent timeout")
unanswered _ = fails 500 (text "unexpected response type")

-- The reply, and the path that the agent is asked to delete.
unfoldable pub handle_delete_dropzone_file : Bytes → Bool → Answer → Reply × Option Bytes
handle_delete_dropzone_file name connected answer =
    let filename = base name in
    let path = agent_dropzone_path ++ slash ∷ filename in
    if text_eq name []
    then (fails 400 (text "filename is required"), none)
    else if text_eq filename dot || text_eq filename (slash ∷ [])
    then (fails 400 (text "invalid filename"), none)
    else if not connected
    then (fails 502 (text "agent not connected"), none)
    else (
      elim answer [
        | delete_response resp ↦ if not resp.success then fails 500 resp.error else no_content
        | other ↦ unanswered other
      ],
      some path,
    )

unfoldable pub handle_list_dropzone : Bool → Answer → Reply
handle_list_dropzone connected answer =
    if not connected then fails 502 (text "agent not connected") else elim answer [
      | list_response resp ↦ if not (text_eq resp.error []) then lists [] else lists resp.files
      | other ↦ unanswered other
    ]
