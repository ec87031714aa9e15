-- ===== src/Agent/Dropzone/Tests.antt =====
-- An upload of a file in three chunks.
use aerodocs.Paths.{base, split}
use aerodocs.Agent.Dropzone.{Dropzone, Chunk, sanitize_filename}
use aerodocs.Agent.Dropzone.Upload.{send_parts, Stored, send_parts-Stored}
use aerodocs.Base.{refl, ◌≢◌, true, false, some, [], ◌∷◌, arith, text, text_eq, lookup}

abbrev new_dropzone : Dropzone
new_dropzone = record { dir = text "/tmp/d"; uploads = []; disk = [] }

abbrev broken_write : Chunk
broken_write = record {
  filename = text "f";
  data_bytes = 1 ∷ 2 ∷ [];
  done = false;
  system = record { opens = true; written = some 1; renames = true };
}

name_is_sane : sanitize_filename (text "a/f") ≢ []
unfolding sanitize_filename base split text_eq
name_is_sane e = cc

send_parts-Stored_example :
    let out =
      send_parts (text "r") (text "a/f") ((1 ∷ []) ∷ (2 ∷ 3 ∷ []) ∷ []) (4 ∷ []) new_dropzone in
    Stored (text "r") (sanitize_filename (text "a/f")) (1 ∷ 2 ∷ 3 ∷ 4 ∷ []) out.0 out.1
unfolding lookup
send_parts-Stored_example =
    send_parts-Stored (text "r") (text "a/f") (1 ∷ []) ((2 ∷ 3 ∷ []) ∷ []) (4 ∷ []) new_dropzone
      refl (omega arith) (λ e. cc) name_is_sane (omega arith)
