-- ===== src/Grpc/Handler.antt =====
-- hub/internal/grpcserver/handler.go: the stream of an agent, from its handshake to its end. The
-- certificates, the clock and the hash of tokens are an environment; a send's success is an argument.
-- A `none` of a step is a panic of a channel. Notifications, log lines and the error texts of the transport have no model. A
-- registration is one step, so that two registrations with one token do not interleave.
pub mod Registration
pub mod Route
pub mod Reach
mod Steps
pub mod Confined
pub mod Connection
pub mod Ended
pub mod Once
mod Tests
use aerodocs.Messages.{FileListResponse, FileReadResponse, FileUploadAck, FileDeleteResponse}
use aerodocs.ConnMgr.{ConnManager}
use aerodocs.Grpc.Pending.{PendingRequests}
use aerodocs.Grpc.LogSessions.{LogSessions}
use aerodocs.Grpc.TerminalSessions.{TerminalSessions}
use aerodocs.Grpc.Coalescer.{HeartbeatCoalescer}
use aerodocs.Store.Servers.{Server}
use aerodocs.Base.{ℕ, Bool, Option, List, Result, Bytes}

pub record RegisterAgent : Type 0 where
  pub token : Bytes
  pub hostname : Bytes
  pub ip_address : Bytes
  pub os : Bytes
  pub agent_version : Bytes
  pub csr : Bytes

-- A message of an agent, with the fields that the hub reads. An exit code is its bit pattern.
pub data AgentMessage : Type 0 where
  registers : RegisterAgent → AgentMessage
  heartbeat : Bytes → Bytes → AgentMessage
  file_list_response : FileListResponse → AgentMessage
  file_read_response : FileReadResponse → AgentMessage
  log_stream_chunk : Bytes → Bytes → AgentMessage
  file_upload_ack : FileUploadAck → AgentMessage
  file_delete_response : FileDeleteResponse → AgentMessage
  unregister_ack : Bytes → Bool → AgentMessage
  cert_renew_request : Bytes → AgentMessage
  terminal_open_ack : Bytes → Bool → Bytes → AgentMessage
  terminal_data : Bytes → Bytes → AgentMessage
  terminal_exit : Bytes → ℕ → Bytes → AgentMessage
  unhandled : AgentMessage

-- A message to an agent; a renewed certificate comes with the hub's own.
pub data HubMessage : Type 0 where
  register_ack : Bytes → Bytes → Bytes → HubMessage
  register_error : Bytes → HubMessage
  heartbeat_ack : HubMessage
  cert_renew_response : Bytes → Bytes → HubMessage
  cert_renew_error : Bytes → HubMessage

-- An entry of the audit log. An address is missing where it is empty.
pub data Audit : Type 0 where
  registered : Bytes → Bytes → Option Bytes → Audit
  registration_failed : Bytes → Option Bytes → Audit
  connected : Bytes → Bytes → Audit
  disconnected : Bytes → Audit

-- The hub, with the messages sent on each stream and the audit log, newest first.
pub record Hub : Type 0 where
  pub servers : List Server
  pub conn_mgr : ConnManager
  pub pending : PendingRequests AgentMessage
  pub log_sessions : LogSessions
  pub terminals : TerminalSessions
  pub hb_coalescer : HeartbeatCoalescer
  pub sent : List (ℕ × HubMessage)
  pub audit : List Audit

-- What the handler calls; an error is its text. `ca_cert` is none if the CA is not configured.
pub record Environment : Type 0 where
  pub hash_token : Bytes → Bytes
  pub ca_cert : Option Bytes
  pub sign_csr : Bytes → Bytes → Result Bytes
  pub parse_time : Bytes → Option ℕ
  pub format_time : ℕ → Bytes
  pub is_ip : Bytes → Bool
  -- The verb %q.
  pub quote : Bytes → Bytes

-- Who is at the other end of a stream: the client certificate has its common name.
pub data Peer : Type 0 where
  no_peer no_certificate : Peer
  certificate : Bytes → Peer

-- The codes of gRPC; other errors are `unknown`.
pub data Code : Type 0 where
  invalid_argument unauthenticated not_found internal unknown : Code
