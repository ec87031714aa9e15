-- ===== src/Agent/Dropzone/Upload.antt =====
-- A whole upload: its chunks one after the other.
use aerodocs.Messages.{FileUploadAck}
use aerodocs.Paths.{join_path}
use aerodocs.Agent.Dropzone.{
  max_upload_size, max_concurrent_uploads, UploadState, Dropzone, System, Chunk, sanitize_filename,
  temp_path, open_new_upload, contents, append_to, complete, write_chunk, take_chunk, handle_chunk,
}
use aerodocs.Base.{
  ℕ, suc, ◌+◌, ◌≤◌, ◌≡◌, refl, sym, ap, ◌∙◌, ◌≢◌, inl, inr, Bool, true, false, Option, none, some,
  List, [], ◌∷◌, ◌++◌, arith, ltb, leb, ◌==◌, Bool-cases, returns, length, length-append, Bytes,
  text_eq, text_eq_iff, Table, lookup, delete, assign, lookup-delete_self, lookup-assign_self,
}

abbrev pub works : System
works = record { opens = true; written = none; renames = true }

abbrev pub part : Bytes → Bool → Bytes → Chunk
part filename done content = record {
  filename = filename;
  data_bytes = content;
  done = done;
  system = works;
}

-- All chunks but the last, and then the last.
unfoldable pub send_parts :
    Bytes → Bytes → List Bytes → Bytes → Dropzone → Dropzone × Option FileUploadAck
send_parts id filename [] last d = handle_chunk id (part filename true last) d
send_parts id filename (content ∷ parts) last d =
    send_parts id filename parts last (handle_chunk id (part filename false content) d).0

abbrev pub total_length : List Bytes → Bytes → ℕ
total_length [] last = length last
total_length (content ∷ parts) last = length content + total_length parts last

abbrev pub all_content : List Bytes → Bytes → Bytes
all_content [] last = last
all_content (content ∷ parts) last = content ++ all_content parts last

-- The upload is open and its file holds what was sent.
pub record Open (id final : Bytes) (sent : Bytes) (d : Dropzone) : Type 0 where
  pub state : UploadState
  pub held : lookup id d.uploads ≡ some state
  pub size : state.bytes ≡ length sent
  pub name : state.final_name ≡ final
  pub file : lookup state.file d.disk ≡ some sent

append_nil : (as' : Bytes) → as' ++ [] ≡ as'
append_nil [] = refl
append_nil (a ∷ as') = rw (append_nil as') refl

append_assoc : (as' bs cs : Bytes) → (as' ++ bs) ++ cs ≡ as' ++ (bs ++ cs)
append_assoc [] bs cs = refl
append_assoc (a ∷ as') bs cs = rw (append_assoc as' bs cs) refl

empty : (content : Bytes) → (length content == 0) ≡ true → content ≡ []
empty [] e = refl
empty (b ∷ content) e = absurd (ground arith)

contents_held :
    (path content : Bytes) (disk : Table Bytes)
    → lookup path disk ≡ some content
    → contents path disk ≡ content
contents_held path content disk e = rw (e, contents) refl

-- A chunk that is not the last.
pub middle-Open :
    (id final filename sent content : Bytes) (d : Dropzone)
    → Open id final sent d
    → length sent + length content ≤ max_upload_size
    → Open id final (sent ++ content) (handle_chunk id (part filename false content) d).0
unfolding handle_chunk take_chunk write_chunk complete
middle-Open id final filename sent content d o fits =
    let state = o.state in
    elim (Bool-cases (length content == 0)) [
      | inl none_ ↦
          let nothing = empty content none_ in
          let same : sent ++ content ≡ sent = rw (nothing, append_nil sent) refl in
          let value : (handle_chunk id (part filename false content) d).0 ≡ d =
            rw (o.held, none_, handle_chunk) refl in
          rw (same, value) o
      | inr some_ ↦
          let small : ltb max_upload_size (state.bytes + length content) ≡ false =
            ground (arith, o.size, fits) in
          let state' = record state { bytes = state.bytes + length content } in
          let d' = record d {
            uploads = assign id state' d.uploads;
            disk = append_to state.file content d.disk;
          } in
          let value : (handle_chunk id (part filename false content) d).0 ≡ d' =
            rw (o.held, some_, small, handle_chunk) refl in
          rw value (record {
            state = state';
            held = lookup-assign_self id state' d.uploads;
            size = omega (arith, o.size, length-append sent content);
            name = o.name;
            file =
                lookup-assign_self state.file (contents state.file d.disk ++ content) d.disk
                ∙ ap (λ x. some (x ++ content)) (contents_held state.file sent d.disk o.file);
          })
    ]

-- What is left when an upload is complete.
pub record Stored (id final content : Bytes) (d : Dropzone) (ack : Option FileUploadAck)
    : Type 0 where
  pub file : lookup (join_path d.dir final) d.disk ≡ some content
  pub over : lookup id d.uploads ≡ none
  pub success : ack ≡ some (record { request_id = id; success = true; error = [] })

complete-Stored :
    (id final filename sent content : Bytes) (d : Dropzone) (state : UploadState)
    → lookup state.file d.disk ≡ some sent
    → state.final_name ≡ final
    → let out = complete id (part filename true content) state d in Stored id final sent out.0 out.1
unfolding complete
complete-Stored id final filename sent content d state file name =
    let path = join_path d.dir state.final_name in
    record {
      file =
          ap
            (λ x.
              lookup (join_path d.dir x)
                (assign path (contents state.file d.disk) (delete state.file d.disk)))
            (sym name)
          ∙ lookup-assign_self path (contents state.file d.disk) (delete state.file d.disk)
          ∙ ap some (contents_held state.file sent d.disk file);
      over = lookup-delete_self id d.uploads;
      success = refl;
    }

pub last-Stored :
    (id final filename sent content : Bytes) (d : Dropzone)
    → Open id final sent d
    → length sent + length content ≤ max_upload_size
    → let out = handle_chunk id (part filename true content) d in
      Stored id final (sent ++ content) out.0 out.1
unfolding handle_chunk take_chunk write_chunk
last-Stored id final filename sent content d o fits =
    let state = o.state in
    let c = part filename true content in
    elim (Bool-cases (length content == 0)) [
      | inl none_ ↦
          let nothing = empty content none_ in
          let same : sent ++ content ≡ sent = rw (nothing, append_nil sent) refl in
          let value : handle_chunk id c d ≡ complete id c state d =
            rw (o.held, none_, handle_chunk) refl in
          rw (same, value) (complete-Stored id final filename sent content d state o.file o.name)
      | inr some_ ↦
          let small : ltb max_upload_size (state.bytes + length content) ≡ false =
            ground (arith, o.size, fits) in
          let state' = record state { bytes = state.bytes + length content } in
          let d' = record d {
            uploads = assign id state' d.uploads;
            disk = append_to state.file content d.disk;
          } in
          let value : handle_chunk id c d ≡ complete id c state' d' =
            rw (o.held, some_, small, handle_chunk) refl in
          let file =
            lookup-assign_self state.file (contents state.file d.disk ++ content) d.disk
            ∙ ap (λ x. some (x ++ content)) (contents_held state.file sent d.disk o.file) in
          rw value
            (complete-Stored id final filename (sent ++ content) content d' state' file o.name)
    ]

rest-Stored :
    (parts : List Bytes) (id final filename sent last : Bytes) (d : Dropzone)
    → Open id final sent d
    → length sent + total_length parts last ≤ max_upload_size
    → let out = send_parts id filename parts last d in
      Stored id final (sent ++ all_content parts last) out.0 out.1
unfolding send_parts
rest-Stored [] id final filename sent last d o fits =
    last-Stored id final filename sent last d o fits
rest-Stored (content ∷ parts) id final filename sent last d o fits =
    let o' = middle-Open id final filename sent content d o (omega (arith, fits)) in
    let d' = (handle_chunk id (part filename false content) d).0 in
    let ih =
      rest-Stored parts id final filename (sent ++ content) last d' o'
        (omega (arith, fits, length-append sent content)) in
    rw (← append_assoc sent content (all_content parts last)) ih

-- The last chunk apart, a chunk of an open upload is not acknowledged.
pub middle_quiet :
    (id final filename sent content : Bytes) (d : Dropzone)
    → Open id final sent d
    → length sent + length content ≤ max_upload_size
    → (handle_chunk id (part filename false content) d).1 ≡ none
unfolding handle_chunk take_chunk write_chunk complete
middle_quiet id final filename sent content d o fits =
    let state = o.state in
    elim (Bool-cases (length content == 0)) [
      | inl none_ ↦ rw (o.held, none_, handle_chunk) refl
      | inr some_ ↦
          let small : ltb max_upload_size (state.bytes + length content) ≡ false =
            ground (arith, o.size, fits) in
          rw (o.held, some_, small, handle_chunk) refl
    ]

-- What the first chunk of an upload meets: a free id, a free place and a name that is sane.
pub record Ready (id filename : Bytes) (d : Dropzone) : Type 0 where
  pub fresh : lookup id d.uploads ≡ none
  pub room : suc (length d.uploads) ≤ max_concurrent_uploads
  pub named : filename ≢ []
  pub sane : sanitize_filename filename ≢ []

-- A first chunk is taken as a chunk of an upload that was just opened, and has no bytes.
opened_first :
    (id filename content : Bytes) (d : Dropzone)
    → Ready id filename d
    → (d1 : Dropzone) × (Open id (sanitize_filename filename) [] d1
        × (handle_chunk id (part filename false content) d
            ≡ handle_chunk id (part filename false content) d1))
unfolding handle_chunk open_new_upload
opened_first id filename content d ready =
    let final = sanitize_filename filename in
    let tmp = temp_path d.dir id in
    let state : UploadState = record { file = tmp; bytes = 0; final_name = final } in
    let d1 = record d { uploads = assign id state d.uploads; disk = assign tmp [] d.disk } in
    let c = part filename false content in
    let opened : open_new_upload id c d
        ≡ returns (record d { disk = assign tmp [] d.disk }, state) =
      let r : leb max_concurrent_uploads (length d.uploads) ≡ false = ground (arith, ready.room) in
      let n : text_eq filename [] ≡ false = ground (arith, ready.named, text_eq_iff filename []) in
      let s : text_eq final [] ≡ false = ground (arith, ready.sane, text_eq_iff final []) in
      rw (r, n, s, open_new_upload) refl in
    let again = lookup-assign_self id state d.uploads in
    let left : handle_chunk id c d ≡ take_chunk id c state d1 =
      rw (ready.fresh, opened, handle_chunk) refl in
    let right : handle_chunk id c d1 ≡ take_chunk id c state d1 = rw (again, handle_chunk) refl in
    (
      d1,
      (
        record {
          state = state;
          held = again;
          size = refl;
          name = refl;
          file = lookup-assign_self tmp [] d.disk;
        },
        left ∙ sym right,
      ),
    )

pub first-Open :
    (id filename content : Bytes) (d : Dropzone)
    → Ready id filename d
    → length content ≤ max_upload_size
    → let out = handle_chunk id (part filename false content) d in
      Open id (sanitize_filename filename) content out.0 × (out.1 ≡ none)
first-Open id filename content d ready fits =
    let (d1, (o, first)) = opened_first id filename content d ready in
    let final = sanitize_filename filename in
    rw first (
      middle-Open id final filename [] content d1 o (omega (arith, fits)),
      middle_quiet id final filename [] content d1 o (omega (arith, fits)),
    )

-- A new upload in several chunks on a disk that works: if fewer than 10 uploads are open, the name is
-- sane and the chunks have at most 100 MB together, then after the last chunk the file of that name
-- holds the chunks one after the other, the upload is no longer open, and its end is acknowledged.
pub send_parts-Stored :
    (id filename content : Bytes) (parts : List Bytes) (last : Bytes) (d : Dropzone)
    → lookup id d.uploads ≡ none
    → suc (length d.uploads) ≤ max_concurrent_uploads
    → filename ≢ []
    → sanitize_filename filename ≢ []
    → total_length (content ∷ parts) last ≤ max_upload_size
    → let out = send_parts id filename (content ∷ parts) last d in
      Stored id (sanitize_filename filename) (all_content (content ∷ parts) last) out.0 out.1
unfolding send_parts
send_parts-Stored id filename content parts last d fresh room named sane fits =
    let ready : Ready id filename d = record {
      fresh = fresh;
      room = room;
      named = named;
      sane = sane;
    } in
    let o = (first-Open id filename content d ready (omega (arith, fits))).0 in
    let d' = (handle_chunk id (part filename false content) d).0 in
    rest-Stored parts id (sanitize_filename filename) filename content last d' o
      (omega (arith, fits))
