-- ===== src/Messages.antt =====
-- The protocol messages of proto/veyport/v1 that carry files, with the fields that the code reads. The
-- sizes of files and the counts are natural numbers.
use aerodocs.Base.{ℕ, Bool, List, Bytes}

pub record FileNode : Type 0 where
  pub name : Bytes
  pub path : Bytes
  pub is_dir : Bool
  pub size : ℕ
  pub readable : Bool

pub record FileListResponse : Type 0 where
  pub request_id : Bytes
  pub files : List FileNode
  pub error : Bytes

pub record FileReadResponse : Type 0 where
  pub request_id : Bytes
  pub content : Bytes
  pub total_size : ℕ
  pub mime_type : Bytes
  pub error : Bytes

pub record FileUploadAck : Type 0 where
  pub request_id : Bytes
  pub success : Bool
  pub error : Bytes

pub record FileDeleteResponse : Type 0 where
  pub request_id : Bytes
  pub success : Bool
  pub error : Bytes

-- An int64 offset, which is negative for a read of the end of a file.
pub data ℤ : Type 0 where
  pos : ℕ → ℤ
  negsuc : ℕ → ℤ
