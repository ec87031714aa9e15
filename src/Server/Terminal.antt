-- ===== src/Server/Terminal.antt =====
-- hub/internal/server/handlers_terminal.go: the handlers of terminal sessions. The table of sessions is
-- that of Grpc.TerminalSessions; `none` is a panic of one of its channels. A handler that waits for the
-- agent is two steps, before and after the wait. The table is always there, as the hub's main builds it.
pub mod Access
pub mod Owner
pub mod Creation
mod Tests
use aerodocs.Grpc.TerminalSessions.{
  TerminalEvent, event_data, event_exit, TerminalSessionInfo, TerminalSessions, register, get,
  Attached, missing, busy, attached, attach_stream, remove_if_hub_initiated, remove_unattached,
  remove,
}
use aerodocs.Server.Gate.{User}
use aerodocs.Server.Files.{validate_request_path}
use aerodocs.Base.{
  ℕ, Bool, false, not, ◌||◌, Option, none, some, List, [], ◌∷◌, ◌++◌, ltb, if◌then◌else◌, ◌>>=◌,
  length, any, Bytes, text, text_eq, contains,
}

abbrev pub max_terminal_input_bytes : ℕ
max_terminal_input_bytes = 8192

-- A request with its user and its path's ids. `user` is `GetUserByID`, `paths` is
-- `GetUserPathsForServer`; none is their error.
pub record TerminalRequest : Type 0 where
  pub user_id : Bytes
  pub server_id : Bytes
  pub session_id : Bytes
  pub connected : Bool
  pub user : Option User
  pub paths : Option (List Bytes)

pub record CreateTerminalSession : Type 0 where
  pub cols : ℕ
  pub rows : ℕ
  pub cwd : Bytes

pub data TerminalReply : Type 0 where
  fails : ℕ → Bytes → TerminalReply
  session_created : Bytes → TerminalReply
  accepted no_content : TerminalReply

-- A message to the agent, with the session, or an entry of the audit log, with its detail.
pub data Effect : Type 0 where
  opens : Bytes → CreateTerminalSession → Bytes → Effect
  inputs : Bytes → Bytes → Effect
  resizes : Bytes → ℕ → ℕ → Effect
  closes : Bytes → Effect
  audits_opened audits_closed : Bytes → Effect

-- A value, or an error response.
pub data Checked {ℓ} (A : Type ℓ) : Type ℓ where
  grants : A → Checked A
  denies : ℕ → Bytes → Checked A

abbrev pub has_terminal_server_assignment : List Bytes → Bool
has_terminal_server_assignment paths = any (λ path. text_eq path (text "/")) paths

abbrev pub is_ldap : User → Bool
is_ldap user = text_eq user.auth_provider (text "ldap")

unfoldable pub ldap_execution_username : User → Bytes
ldap_execution_username user =
    if not (is_ldap user)
    then []
    else if not (text_eq user.ldap_username [])
    then user.ldap_username
    else user.username

unfoldable pub resolve_assigned_user : User → Option (List Bytes) → Checked Bytes
unfolding ldap_execution_username
resolve_assigned_user user none = denies 500 (text "failed to check server assignment")
resolve_assigned_user user (some paths) =
    if not (has_terminal_server_assignment paths)
    then denies 403 (text "root server assignment required for terminal access")
    else if text_eq (ldap_execution_username user) []
    then denies 403 (text "LDAP execution user not available")
    else grants (ldap_execution_username user)

unfoldable pub resolve_terminal_execution_user : TerminalRequest → Checked Bytes
unfolding resolve_assigned_user
resolve_terminal_execution_user r = elim r.user [
  | none ↦ denies 403 (text "terminal access required")
  | some user ↦
      if text_eq user.role (text "admin")
      then grants (ldap_execution_username user)
      else if not (is_ldap user) || not user.terminal_access
      then denies 403 (text "terminal access required")
      else resolve_assigned_user user r.paths
]

unfoldable pub require_terminal_session :
    TerminalRequest → TerminalSessions → Checked TerminalSessionInfo
require_terminal_session r ts = elim (get r.server_id r.session_id ts) [
  | none ↦ denies 404 (text "terminal session not found")
  | some info ↦
      if not (text_eq info.user_id r.user_id)
      then denies 404 (text "terminal session not found")
      else grants info
]

abbrev pub session_detail : Bytes → Bytes
session_detail session = text "session_id=" ++ session

-- The state, the reply and the effects of a step.
abbrev pub Out : Type 0
Out = TerminalSessions × (TerminalReply × List Effect)

-- `handleCreateTerminalSession` up to its request to the agent, and the execution user if it is made.
-- `body` is the decoded request.
unfoldable pub register_session :
    TerminalRequest → CreateTerminalSession → Bytes → TerminalSessions → Out
register_session r req execution_user ts =
    let (ts', created) = register r.server_id r.session_id r.user_id execution_user ts in
    if not created
    then (ts', (fails 409 (text "terminal session already exists"), []))
    else (ts', (session_created r.session_id, opens r.session_id req execution_user ∷ []))

unfoldable pub begin_create :
    TerminalRequest → Option CreateTerminalSession → TerminalSessions → Out
unfolding register_session
begin_create r body ts =
    if not r.connected then (ts, (fails 502 (text "agent not connected"), [])) else elim body [
      | none ↦ (ts, (fails 400 (text "invalid request body"), []))
      | some req ↦ elim (if text_eq req.cwd [] then none else validate_request_path req.cwd) [
        | some message ↦ (ts, (fails 400 message, []))
        | none ↦ elim (resolve_terminal_execution_user r) [
          | denies status message ↦ (ts, (fails status message, []))
          | grants execution_user ↦ register_session r req execution_user ts
        ]
      ]
    ]

-- How the request to the agent ends: the acknowledgement has its success and its error.
pub data OpenAnswer : Type 0 where
  not_sent timed_out other_message : OpenAnswer
  open_ack : Bool → Bytes → OpenAnswer

abbrev pub open_error : OpenAnswer → TerminalReply
open_error not_sent = fails 502 (text "agent not connected")
open_error timed_out = fails 504 (text "agent timeout")
open_error other_message = fails 502 (text "unexpected terminal response")
open_error (open_ack success error) =
    if contains error (text "cwd") then fails 400 error else fails 502 error

abbrev pub is_success : OpenAnswer → Bool
is_success (open_ack success error) = success
is_success _ = false

-- The rest of the handler; `quote` is the verb %q.
unfoldable pub finish_create :
    (Bytes → Bytes)
    → TerminalRequest
    → CreateTerminalSession
    → Bytes
    → OpenAnswer
    → TerminalSessions
    → Option Out
finish_create quote r req execution_user answer ts =
    let detail =
      session_detail r.session_id
      ++ (if text_eq req.cwd [] then [] else text " cwd=" ++ quote req.cwd)
      ++ (if text_eq execution_user [] then [] else text " execution_user=" ++ execution_user) in
    if is_success answer
    then some (ts, (session_created r.session_id, audits_opened detail ∷ []))
    else (remove r.server_id r.session_id ts >>= λ removed.
        some (removed.0, (open_error answer, [])))

-- `handleTerminalStream` up to its loop: the stream's data, or the error.
unfoldable pub begin_stream :
    TerminalRequest → TerminalSessions → TerminalSessions × Checked TerminalSessionInfo
begin_stream r ts =
    let (ts', result) = attach_stream r.server_id r.session_id r.user_id ts in
    (
      ts',
      elim result [
        | missing ↦ denies 404 (text "terminal session not found")
        | busy ↦ denies 409 (text "terminal session stream already attached")
        | attached info ↦ grants info
      ],
    )

-- What the loop writes for an event; `encode` is base64, `payload` the JSON of an exit.
unfoldable pub write_event : (Bytes → Bytes) → (ℕ → Bytes → Bytes) → TerminalEvent → Bytes
write_event encode payload (event_data content) = text "data: " ++ encode content ++ (10 ∷ 10 ∷ [])
write_event encode payload (event_exit exit_code error) =
    text "event: exit" ++ 10 ∷ (text "data: " ++ payload exit_code error ++ (10 ∷ 10 ∷ []))

unfoldable pub close_terminal_session :
    TerminalRequest → TerminalSessions → Option (TerminalSessions × List Effect)
close_terminal_session r ts = remove_if_hub_initiated r.server_id r.session_id ts >>= λ result.
    let (ts', already_closed, removed) = result in
    if not removed
    then some (ts', [])
    else if already_closed
    then some (ts', audits_closed (session_detail r.session_id ++ text " agent_initiated") ∷ [])
    else some (ts', closes r.session_id ∷ audits_closed (session_detail r.session_id) ∷ [])

-- The timer of `expireUnattachedTerminalSession`.
unfoldable pub expire_unattached_terminal_session :
    TerminalRequest → TerminalSessions → Option (TerminalSessions × List Effect)
expire_unattached_terminal_session r ts =
    remove_unattached r.server_id r.session_id ts >>= λ result.
    if not result.1
    then some (result.0, [])
    else some (
      result.0,
      closes r.session_id
          ∷ audits_closed (session_detail r.session_id ++ text " expired_unattached")
          ∷ [],
    )

-- An input or a resize for the session; `sends` tells whether the message reaches the agent.
unfoldable pub handle_terminal_input :
    TerminalRequest → Option Bytes → Bool → TerminalSessions → TerminalReply × List Effect
unfolding require_terminal_session
handle_terminal_input r body sends ts =
    if not r.connected
    then (fails 502 (text "agent not connected"), [])
    else elim (require_terminal_session r ts) [
      | denies status message ↦ (fails status message, [])
      | grants info ↦
          if info.closed then (fails 409 (text "terminal session is closed"), []) else elim body [
            | none ↦ (fails 400 (text "invalid request body"), [])
            | some content ↦
                if ltb max_terminal_input_bytes (length content)
                then (fails 400 (text "terminal input too large"), [])
                else if not sends
                then (fails 502 (text "failed to send terminal input"), [])
                else (accepted, inputs r.session_id content ∷ [])
          ]
    ]

unfoldable pub handle_terminal_resize :
    TerminalRequest → Option (ℕ × ℕ) → Bool → TerminalSessions → TerminalReply × List Effect
unfolding require_terminal_session
handle_terminal_resize r body sends ts =
    if not r.connected
    then (fails 502 (text "agent not connected"), [])
    else elim (require_terminal_session r ts) [
      | denies status message ↦ (fails status message, [])
      | grants info ↦
          if info.closed then (fails 409 (text "terminal session is closed"), []) else elim body [
            | none ↦ (fails 400 (text "invalid request body"), [])
            | some (cols, rows) ↦
                if not sends
                then (fails 502 (text "failed to resize terminal"), [])
                else (accepted, resizes r.session_id cols rows ∷ [])
          ]
    ]

unfoldable pub handle_close_terminal_session : TerminalRequest → TerminalSessions → Option Out
unfolding require_terminal_session close_terminal_session
handle_close_terminal_session r ts = elim (require_terminal_session r ts) [
  | denies status message ↦ some (ts, (fails status message, []))
  | grants info ↦ close_terminal_session r ts >>= λ result. some (result.0, (no_content, result.1))
]
