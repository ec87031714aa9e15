-- ===== src/Server/Upload/Delivery.antt =====
-- The messages of an upload, taken by the dropzone of an agent whose disk works.
use aerodocs.Messages.{FileUploadAck}
use aerodocs.Agent.Dropzone.{Dropzone, handle_chunk}
use aerodocs.Agent.Dropzone.Upload.{part, Open, Stored, middle-Open, middle_quiet, last-Stored}
use aerodocs.Server.Upload.{
  max_upload_size, UploadMessage, Reader, gives, ends, breaks, gets, stops, upload_error, Progress,
  chunk_filename, send_read, send_final_chunk, stream_file_to_agent,
}
use aerodocs.Base.{
  ℕ, suc, ◌+◌, ◌≤◌, ◌≡◌, refl, sym, ap, ◌∙◌, Bool, true, false, Option, none, some, List, [], ◌∷◌,
  ◌++◌, arith, ltb, ◌==◌, length, length-append, Bytes, text,
}

-- Of the answers to one request, the channel of the hub takes the first.
abbrev pub first_ack : Option FileUploadAck → Option FileUploadAck → Option FileUploadAck
first_ack none later = later
first_ack (some ack) later = some ack

unfoldable pub deliver : Bytes → List UploadMessage → Dropzone → Dropzone × Option FileUploadAck
deliver id [] d = (d, none)
deliver id (m ∷ ms) d =
    let out = handle_chunk id (part m.filename m.done m.chunk) d in
    let rest = deliver id ms out.0 in (rest.0, first_ack out.1 rest.1)

-- What a file holds, and whether it is read to its end.
abbrev pub content_of : Reader → Bytes
content_of (gives read reader) = read ++ content_of reader
content_of (ends read) = read
content_of (breaks read) = read

abbrev pub is_whole : Reader → Bool
is_whole (gives read reader) = is_whole reader
is_whole (ends read) = true
is_whole (breaks read) = false

-- What a stream has come to, for an upload that had got `sent`: the whole file is stored, or the
-- reading failed and the upload is open with what was read.
abbrev pub Delivered : Bytes → Bytes → Bytes → Bytes → Bool → Dropzone → Progress → Type 0
Delivered id final sent content true d p =
    (p.1 ≡ gets (length (sent ++ content)))
    × Stored id final (sent ++ content) (deliver id p.0 d).0 (deliver id p.0 d).1
Delivered id final sent content false d p =
    (p.1 ≡ stops (upload_error 500 (text "failed to read file")))
    × (Open id final (sent ++ content) (deliver id p.0 d).0 × ((deliver id p.0 d).1 ≡ none))

pub append_nil : (as' : Bytes) → as' ++ [] ≡ as'
append_nil [] = refl
append_nil (a ∷ as') = rw (append_nil as') refl

append_assoc : (as' bs cs : Bytes) → (as' ++ bs) ++ cs ≡ as' ++ (bs ++ cs)
append_assoc [] bs cs = refl
append_assoc (a ∷ as') bs cs = rw (append_assoc as' bs cs) refl

-- What follows a read, on an agent that has got what was sent and the read.
abbrev pub Continues : Bytes → Bytes → Bytes → Bytes → Bool → (ℕ → Bool → ℕ → Progress) → Type 0
Continues id final all content whole continue =
    (count : ℕ) (d : Dropzone) (total : ℕ)
    → total ≡ length all
    → Open id final all d
    → Delivered id final all content whole d (continue count false total)

pub Delivered-resp :
    (id final sent sent' content content' : Bytes) (whole : Bool) (d : Dropzone) (p : Progress)
    → sent ++ content ≡ sent' ++ content'
    → Delivered id final sent content whole d p
    → Delivered id final sent' content' whole d p
Delivered-resp id final sent sent' content content' true d p e h = rw (← e) h
Delivered-resp id final sent sent' content content' false d p e h = rw (← e) h

-- The first message of a list, if it is not acknowledged.
deliver_quiet :
    (id : Bytes) (m : UploadMessage) (ms : List UploadMessage) (d : Dropzone)
    → (handle_chunk id (part m.filename m.done m.chunk) d).1 ≡ none
    → deliver id (m ∷ ms) d ≡ deliver id ms (handle_chunk id (part m.filename m.done m.chunk) d).0
unfolding deliver
deliver_quiet id m ms d quiet = rw quiet refl

pub Delivered-quiet :
    (id final sent content : Bytes) (whole : Bool) (m : UploadMessage) (d : Dropzone) (p : Progress)
    → (handle_chunk id (part m.filename m.done m.chunk) d).1 ≡ none
    → Delivered id final sent content whole (handle_chunk id (part m.filename m.done m.chunk) d).0 p
    → Delivered id final sent content whole d (m ∷ p.0, p.1)
Delivered-quiet id final sent content true m d p quiet h = rw (deliver_quiet id m p.0 d quiet) h
Delivered-quiet id final sent content false m d p quiet h = rw (deliver_quiet id m p.0 d quiet) h

first_ack_last : (a : Option FileUploadAck) → first_ack a none ≡ a
first_ack_last none = refl
first_ack_last (some ack) = refl

module _ (id final filename : Bytes) (sends : ℕ → Bool) (all_sent : (n : ℕ) → sends n ≡ true) where
  pub send_read-Delivered :
      (read content sent : Bytes) (whole : Bool) (continue : ℕ → Bool → ℕ → Progress)
      (count total : ℕ) (d : Dropzone)
      → total ≡ length sent
      → Open id final sent d
      → length sent + length read ≤ max_upload_size
      → Continues id final (sent ++ read) content whole continue
      → Delivered id final sent
          (read ++ content)
          whole
          d
          (send_read sends filename read count false total continue)
  unfolding send_read chunk_filename
  send_read-Delivered [] content sent whole continue count total d size o fits next =
      let same = append_nil sent in
      let size' : total ≡ length (sent ++ []) = size ∙ sym (ap length same) in
      Delivered-resp id final (sent ++ []) sent content content whole d (continue count false total)
        (ap (λ t. t ++ content) same) (next count d total size' (rw same o))
  send_read-Delivered (b ∷ bs) content sent whole continue count total d size o fits next =
      let read = b ∷ bs in
      let m : UploadMessage = record { filename = []; chunk = read; done = false } in
      let d' = (handle_chunk id (part [] false read) d).0 in
      let o' = middle-Open id final [] sent read d o fits in
      let quiet = middle_quiet id final [] sent read d o fits in
      let size' : total + length read ≡ length (sent ++ read) =
        omega (arith, size, length-append sent read) in
      let small : ltb max_upload_size (total + length read) ≡ false = ground (arith, size, fits) in
      let p = continue (suc count) false (total + length read) in
      let after = next (suc count) d' (total + length read) size' o' in
      let some_ : (length read == 0) ≡ false = ground arith in
      rw (some_, small, all_sent count)
        (Delivered-resp id final (sent ++ read) sent content (read ++ content) whole d
          (m ∷ p.0, p.1) (append_assoc sent read content)
          (Delivered-quiet id final (sent ++ read) content whole m d p quiet after))

  pub final-Delivered :
      (sent : Bytes)
      → length sent ≤ max_upload_size
      → Continues id final sent [] true (λ c f t. send_final_chunk sends c t)
  unfolding send_final_chunk deliver
  final-Delivered sent small count d total size o =
      let last = last-Stored id final [] sent [] d o (omega (arith, small)) in
      rw (all_sent count, first_ack_last (handle_chunk id (part [] true []) d).1)
        (ap gets (size ∙ sym (ap length (append_nil sent))), last)

  -- The reads after the first that had bytes.
  pub stream-Delivered :
      (reader : Reader) (sent : Bytes) (count total : ℕ) (d : Dropzone)
      → total ≡ length sent
      → Open id final sent d
      → length sent + length (content_of reader) ≤ max_upload_size
      → Delivered id final sent
          (content_of reader)
          (is_whole reader)
          d
          (stream_file_to_agent sends filename reader count false total)
  unfolding stream_file_to_agent deliver
  stream-Delivered (gives read reader) sent count total d size o fits =
      let sum = length-append read (content_of reader) in
      send_read-Delivered read (content_of reader) sent (is_whole reader)
        (λ c f t. stream_file_to_agent sends filename reader c f t) count total d size o
        (omega (arith, fits, sum))
        (λ c' d' t' size' o'.
          stream-Delivered reader (sent ++ read) c' t' d' size' o'
            (omega (arith, fits, sum, length-append sent read)))
  stream-Delivered (ends read) sent count total d size o fits =
      Delivered-resp id final sent sent (read ++ []) read true d
        (send_read sends filename read count false total (λ c f t. send_final_chunk sends c t))
        (ap (λ t. sent ++ t) (append_nil read))
        (send_read-Delivered read [] sent true (λ c f t. send_final_chunk sends c t) count total d
          size o fits
          (final-Delivered (sent ++ read) (omega (arith, fits, length-append sent read))))
  stream-Delivered (breaks read) sent count total d size o fits =
      Delivered-resp id final sent sent (read ++ []) read false d
        (send_read sends filename read count false total
          (λ c f t. ([], stops (upload_error 500 (text "failed to read file")))))
        (ap (λ t. sent ++ t) (append_nil read))
        (send_read-Delivered read [] sent false
          (λ c f t. ([], stops (upload_error 500 (text "failed to read file")))) count total d size
          o fits (λ c' d' t' size' o'. (refl, (rw (append_nil (sent ++ read)) o', refl))))
