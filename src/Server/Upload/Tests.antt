-- ===== src/Server/Upload/Tests.antt =====
-- An upload of three bytes in two reads, one that breaks off, and one of no bytes.
use aerodocs.Paths.{base, split}
use aerodocs.Agent.Dropzone.{Dropzone, sanitize_filename}
use aerodocs.Agent.Dropzone.Upload.{Open, Stored, Ready}
use aerodocs.Server.Upload.{
  Reader, gives, ends, breaks, part, no_more, find_file, parse_multipart_file_stream, fails,
  uploaded, UploadRequest, handle_upload_file,
}
use aerodocs.Server.Upload.Delivery.{deliver}
use aerodocs.Server.Upload.Laws.{agent, Sent, handle_upload_file-Stored}
use aerodocs.Server.Upload.Aborted.{handle_upload_file_broken}
use aerodocs.Base.{◌≡◌, refl, true, none, some, [], ◌∷◌, arith, text, text_eq, has_prefix, lookup}

abbrev idle : Dropzone
idle = record { dir = text "/d"; uploads = []; disk = [] }

abbrev request : Reader → UploadRequest
request reader = record {
  content_type = text "multipart/form-data";
  media = some (text "multipart/form-data", text "x");
  parts = part (text "file") (text "a/f") reader no_more;
  connected = true;
  sends = λ n. true;
}

request-Sent : (reader : Reader) → Sent (request reader) reader (text "f")
unfolding parse_multipart_file_stream find_file has_prefix text_eq base split
request-Sent reader = record { parsed = refl; connected = refl; all_sent = λ n. refl }

idle-Ready : Ready (text "r") (text "f") idle
unfolding lookup sanitize_filename base split text_eq
idle-Ready = record { fresh = refl; room = omega arith; named = λ e. cc; sane = λ e. cc }

abbrev two_reads : Reader
two_reads = gives (1 ∷ 2 ∷ []) (ends (3 ∷ []))

handle_upload_file-Stored_example :
    let out = handle_upload_file (agent (text "r") idle) (request two_reads) in
    let there = deliver (text "r") out.0 idle in
    Stored (text "r") (sanitize_filename (text "f")) (1 ∷ 2 ∷ 3 ∷ []) there.0 there.1
    × (out.1 ≡ (uploaded (text "f") 3, some (text "f")))
handle_upload_file-Stored_example =
    handle_upload_file-Stored (text "r") (text "f") (request two_reads) two_reads idle
      (request-Sent two_reads) idle-Ready refl (λ e. cc) (omega arith)

handle_upload_file_broken_example :
    let out = handle_upload_file (agent (text "r") idle) (request (gives (1 ∷ []) (breaks []))) in
    Open (text "r") (sanitize_filename (text "f")) (1 ∷ []) (deliver (text "r") out.0 idle).0
    × (out.1 ≡ (fails 500 (text "failed to read file"), none))
handle_upload_file_broken_example =
    handle_upload_file_broken (text "r") (text "f") (request (gives (1 ∷ []) (breaks [])))
      (gives (1 ∷ []) (breaks [])) idle (request-Sent (gives (1 ∷ []) (breaks []))) idle-Ready refl
      (λ e. cc) (omega arith)
