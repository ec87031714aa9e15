-- ===== src/Agent/Dropzone/Laws.antt =====
-- The limits of the dropzone hold whatever chunks arrive.
use aerodocs.Agent.Dropzone.{max_upload_size, max_concurrent_uploads, UploadState, Dropzone}
use aerodocs.Base.{◌≤◌, length, Bytes, Entries}

abbrev Small : Bytes → UploadState → Type 0
Small id state = state.bytes ≤ max_upload_size

-- At most 10 uploads are open, and none holds more than 100 MB.
pub record IsValid (d : Dropzone) : Type 0 where
  pub few : length d.uploads ≤ max_concurrent_uploads
  pub small : Entries Small d.uploads
