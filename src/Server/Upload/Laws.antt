-- ===== src/Server/Upload/Laws.antt =====
-- What comes of an upload, from the body of the request to the file on the agent.
use aerodocs.Messages.{FileUploadAck}
use aerodocs.Agent.Dropzone.{Dropzone, sanitize_filename, handle_chunk}
use aerodocs.Agent.Dropzone.Upload.{part, Open, Stored, Ready, first-Open}
use aerodocs.Server.Upload.{
  max_upload_size, UploadMessage, Reader, gives, ends, breaks, gets, stops, upload_error, Progress,
  chunk_filename, send_read, send_final_chunk, stream_file_to_agent, parse_multipart_file_stream,
  Answer, timed_out, upload_ack, Reply, fails, uploaded, after_ack, UploadRequest,
  handle_upload_file,
}
use aerodocs.Server.Upload.Delivery.{
  deliver, content_of, is_whole, Delivered, Delivered-resp, Delivered-quiet, append_nil,
  final-Delivered, stream-Delivered,
}
use aerodocs.Base.{
  ℕ, suc, ◌+◌, ◌≤◌, ◌≡◌, refl, ◌∙◌, ◌≢◌, Bool, true, false, Option, none, some, List, [], ◌∷◌, ◌++◌,
  arith, ltb, ◌==◌, length, length-append, Bytes, text,
}

module _ (id filename : Bytes) (sends : ℕ → Bool) (all_sent : (n : ℕ) → sends n ≡ true) where
  -- The first read that has bytes opens the upload.
  first_read-Delivered :
      (b : ℕ) (bs content : Bytes) (whole : Bool) (continue : ℕ → Bool → ℕ → Progress) (count : ℕ)
      (d : Dropzone)
      → Ready id filename d
      → length (b ∷ bs) ≤ max_upload_size
      → ((d' : Dropzone)
          → Open id (sanitize_filename filename) (b ∷ bs) d'
          → Delivered id
              (sanitize_filename filename)
              (b ∷ bs)
              content
              whole
              d'
              (continue (suc count) false (0 + length (b ∷ bs))))
      → Delivered id
          (sanitize_filename filename)
          []
          (b ∷ bs ++ content)
          whole
          d
          (send_read sends filename (b ∷ bs) count true 0 continue)
  unfolding send_read chunk_filename
  first_read-Delivered b bs content whole continue count d ready fits next =
      let final = sanitize_filename filename in
      let read = b ∷ bs in
      let m : UploadMessage = record { filename = filename; chunk = read; done = false } in
      let d' = (handle_chunk id (part filename false read) d).0 in
      let (o, quiet) = first-Open id filename read d ready fits in
      let small : ltb max_upload_size (0 + length read) ≡ false = ground (arith, fits) in
      let some_ : (length read == 0) ≡ false = ground arith in
      let p = continue (suc count) false (0 + length read) in
      rw (some_, small, all_sent count)
        (Delivered-resp id final read [] content (read ++ content) whole d (m ∷ p.0, p.1) refl
          (Delivered-quiet id final read content whole m d p quiet (next d' o)))

  pub stream_first-Delivered :
      (reader : Reader) (count : ℕ) (d : Dropzone)
      → Ready id filename d
      → content_of reader ≢ []
      → length (content_of reader) ≤ max_upload_size
      → Delivered id
          (sanitize_filename filename)
          []
          (content_of reader)
          (is_whole reader)
          d
          (stream_file_to_agent sends filename reader count true 0)
  unfolding stream_file_to_agent send_read deliver
  stream_first-Delivered (gives [] reader) count d ready full fits =
      stream_first-Delivered reader count d ready full fits
  stream_first-Delivered (gives (b ∷ bs) reader) count d ready full fits =
      let sum = length-append (b ∷ bs) (content_of reader) in
      first_read-Delivered b bs (content_of reader) (is_whole reader)
        (λ c f t. stream_file_to_agent sends filename reader c f t) count d ready
        (omega (arith, fits, sum))
        (λ d' o.
          stream-Delivered id (sanitize_filename filename) filename sends all_sent reader (b ∷ bs)
            (suc count) (0 + length (b ∷ bs)) d' (omega arith) o (omega (arith, fits, sum)))
  stream_first-Delivered (ends []) count d ready full fits = absurd (full refl)
  stream_first-Delivered (ends (b ∷ bs)) count d ready full fits =
      let final = sanitize_filename filename in
      Delivered-resp id final [] [] (b ∷ bs ++ []) (b ∷ bs) true d
        (stream_file_to_agent sends filename (ends (b ∷ bs)) count true 0) (append_nil (b ∷ bs))
        (first_read-Delivered b bs [] true (λ c f t. send_final_chunk sends c t) count d ready fits
          (λ d' o.
            final-Delivered id final filename sends all_sent (b ∷ bs) fits (suc count) d'
              (0 + length (b ∷ bs)) (omega arith) o))
  stream_first-Delivered (breaks []) count d ready full fits = absurd (full refl)
  stream_first-Delivered (breaks (b ∷ bs)) count d ready full fits =
      let final = sanitize_filename filename in
      let broken : ℕ → Bool → ℕ → Progress =
        λ c f t. ([], stops (upload_error 500 (text "failed to read file"))) in
      Delivered-resp id final [] [] (b ∷ bs ++ []) (b ∷ bs) false d
        (stream_file_to_agent sends filename (breaks (b ∷ bs)) count true 0) (append_nil (b ∷ bs))
        (first_read-Delivered b bs [] false broken count d ready fits
          (λ d' o. (refl, (rw (append_nil (b ∷ bs)) o, refl))))

-- The agent's answer, if it comes before the timeout.
abbrev pub answer_of : Option FileUploadAck → Answer
answer_of none = timed_out
answer_of (some ack) = upload_ack ack

abbrev pub agent : Bytes → Dropzone → List UploadMessage → Answer
agent id d sent = answer_of (deliver id sent d).1

-- A request for an upload whose body has a file, on a connected agent that gets every message.
pub record Sent (r : UploadRequest) (reader : Reader) (filename : Bytes) : Type 0 where
  pub parsed : parse_multipart_file_stream r.content_type r.media r.parts ≡ gets (reader, filename)
  pub connected : r.connected ≡ true
  pub all_sent : (n : ℕ) → r.sends n ≡ true

-- The end of a request whose messages were sent, as far as they were.
abbrev pub concluded :
    Bytes → Bytes → Dropzone → Progress → List UploadMessage × (Reply × Option Bytes)
concluded id filename d p = elim p.1 [
  | stops e ↦ (p.0, (fails e.status_code e.message, none))
  | gets total ↦ (p.0, after_ack filename total (agent id d p.0))
]

pub handled :
    (id filename : Bytes) (r : UploadRequest) (reader : Reader) (d : Dropzone)
    → Sent r reader filename
    → handle_upload_file (agent id d) r
      ≡ concluded id filename d (stream_file_to_agent r.sends filename reader 0 true 0)
unfolding handle_upload_file
handled id filename r reader d sent = rw (sent.parsed, sent.connected, handle_upload_file) refl

-- A file that is not empty and has at most 100 MB is read to its end, every message reaches an agent
-- that is ready for it and whose disk works: then the agent holds the file, with exactly the bytes of
-- the request, under the sanitized name, its upload is over, and the hub replies with the size.
pub handle_upload_file-Stored :
    (id filename : Bytes) (r : UploadRequest) (reader : Reader) (d : Dropzone)
    → Sent r reader filename
    → Ready id filename d
    → is_whole reader ≡ true
    → content_of reader ≢ []
    → length (content_of reader) ≤ max_upload_size
    → let out = handle_upload_file (agent id d) r in
      let there = deliver id out.0 d in
      Stored id (sanitize_filename filename) (content_of reader) there.0 there.1
      × (out.1 ≡ (uploaded filename (length (content_of reader)), some filename))
unfolding after_ack
handle_upload_file-Stored id filename r reader d sent ready whole full fits =
    let done =
      stream_first-Delivered id filename r.sends sent.all_sent reader 0 d ready full fits in
    let p = stream_file_to_agent r.sends filename reader 0 true 0 in
    let (total, stored) = rw whole at done in
    let value : handle_upload_file (agent id d) r
        ≡ (p.0, after_ack filename (length (content_of reader)) (agent id d p.0)) =
      handled id filename r reader d sent ∙ rw total refl in
    let reply : after_ack filename (length (content_of reader)) (agent id d p.0)
        ≡ (uploaded filename (length (content_of reader)), some filename) =
      rw stored.success refl in
    rw (value, reply) (stored, refl)
