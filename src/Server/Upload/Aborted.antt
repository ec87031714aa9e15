-- ===== src/Server/Upload/Aborted.antt =====
-- Uploads that do not store a file.
use aerodocs.Agent.Dropzone.{
  Dropzone, max_concurrent_uploads, sanitize_filename, open_new_upload, handle_chunk, refuse,
}
use aerodocs.Agent.Dropzone.Upload.{part, Open, Ready}
use aerodocs.Server.Upload.{
  max_upload_size, UploadMessage, Reader, gives, ends, breaks, gets, send_read, send_final_chunk,
  stream_file_to_agent, Reply, fails, after_ack, UploadRequest, handle_upload_file,
}
use aerodocs.Server.Upload.Delivery.{deliver, content_of, is_whole}
use aerodocs.Server.Upload.Laws.{agent, Sent, handled, concluded, stream_first-Delivered}
use aerodocs.Base.{
  ℕ, suc, ◌≤◌, ◌≡◌, refl, ap, ◌∙◌, ◌≢◌, Bool, true, false, Option, none, some, [], ◌∷◌, ◌++◌, arith,
  leb, length, Bytes, text, text_eq, lookup,
}

append_empty : (as' bs : Bytes) → as' ++ bs ≡ [] → (as' ≡ []) × (bs ≡ [])
append_empty [] bs e = (refl, e)
append_empty (a ∷ as') bs e = cc

empty_stream :
    (filename : Bytes) (sends : ℕ → Bool) (all_sent : (n : ℕ) → sends n ≡ true) (reader : Reader)
    → is_whole reader ≡ true
    → content_of reader ≡ []
    → stream_file_to_agent sends filename reader 0 true 0
      ≡ (record { filename = []; chunk = []; done = true } ∷ [], gets 0)
unfolding stream_file_to_agent send_read send_final_chunk
empty_stream filename sends all_sent (gives [] reader) whole none_ =
    empty_stream filename sends all_sent reader whole none_
empty_stream filename sends all_sent (gives (b ∷ bs) reader) whole none_ = cc
empty_stream filename sends all_sent (ends []) whole none_ = rw (all_sent 0) refl
empty_stream filename sends all_sent (ends (b ∷ bs)) whole none_ = cc
empty_stream filename sends all_sent (breaks read) whole none_ = cc

-- The end of an upload that was never opened.
end_unopened :
    (id : Bytes) (d : Dropzone)
    → lookup id d.uploads ≡ none
    → suc (length d.uploads) ≤ max_concurrent_uploads
    → handle_chunk id (part [] true []) d ≡ (d, some (refuse id (text "no filename provided")))
unfolding handle_chunk open_new_upload text_eq
end_unopened id d fresh room =
    let r : leb max_concurrent_uploads (length d.uploads) ≡ false = ground (arith, room) in
    rw (fresh, r, handle_chunk) refl

abbrev end_message : UploadMessage
end_message = record { filename = []; chunk = []; done = true }

module _ (id filename : Bytes) (d : Dropzone) (fresh : lookup id d.uploads ≡ none)
    (room : suc (length d.uploads) ≤ max_concurrent_uploads) where
  end_replied :
      after_ack filename 0 (agent id d (end_message ∷ []))
      ≡ (fails 500 (text "upload failed: " ++ text "no filename provided"), none)
  unfolding deliver after_ack
  end_replied = rw (end_unopened id d fresh room) refl

module _ (id : Bytes) (d : Dropzone) (fresh : lookup id d.uploads ≡ none)
    (room : suc (length d.uploads) ≤ max_concurrent_uploads) where
  end_left : (deliver id (end_message ∷ []) d).0 ≡ d
  unfolding deliver
  end_left = ap (λ out. out.0) (end_unopened id d fresh room)

-- A file without any bytes cannot be uploaded: though its name is sane, the agent has a place free and
-- every message reaches it, the hub replies with the error 500, since the name goes with the first
-- chunk that has bytes only; the agent is left as it was.
pub handle_upload_file_empty :
    (id filename : Bytes) (r : UploadRequest) (reader : Reader) (d : Dropzone)
    → Sent r reader filename
    → Ready id filename d
    → is_whole reader ≡ true
    → content_of reader ≡ []
    → let out = handle_upload_file (agent id d) r in
      ((deliver id out.0 d).0 ≡ d)
      × (out.1 ≡ (fails 500 (text "upload failed: " ++ text "no filename provided"), none))
handle_upload_file_empty id filename r reader d sent ready whole none_ =
    let stream = empty_stream filename r.sends sent.all_sent reader whole none_ in
    let failed : Reply × Option Bytes =
      (fails 500 (text "upload failed: " ++ text "no filename provided"), none) in
    let value : handle_upload_file (agent id d) r ≡ (end_message ∷ [], failed) =
      handled id filename r reader d sent
      ∙ ap (concluded id filename d) stream
      ∙ ap (λ reply. (end_message ∷ [], reply))
          (end_replied id filename d ready.fresh ready.room) in
    rw value (end_left id d ready.fresh ready.room, refl)

-- If the body of a request breaks off after some bytes, at most 100 MB, the hub replies with an error
-- and tells the agent nothing, so that the upload stays open there and keeps its place and its file.
pub handle_upload_file_broken :
    (id filename : Bytes) (r : UploadRequest) (reader : Reader) (d : Dropzone)
    → Sent r reader filename
    → Ready id filename d
    → is_whole reader ≡ false
    → content_of reader ≢ []
    → length (content_of reader) ≤ max_upload_size
    → let out = handle_upload_file (agent id d) r in
      Open id (sanitize_filename filename) (content_of reader) (deliver id out.0 d).0
      × (out.1 ≡ (fails 500 (text "failed to read file"), none))
handle_upload_file_broken id filename r reader d sent ready broken full fits =
    let stream =
      stream_first-Delivered id filename r.sends sent.all_sent reader 0 d ready full fits in
    let p = stream_file_to_agent r.sends filename reader 0 true 0 in
    let (end, left) = rw broken at stream in
    let value : handle_upload_file (agent id d) r
        ≡ (p.0, (fails 500 (text "failed to read file"), none)) =
      handled id filename r reader d sent ∙ rw end refl in
    rw value (left.0, refl)
