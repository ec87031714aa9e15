-- ===== src/Server/Terminal/Creation.antt =====
-- What opening a terminal leaves behind.
use aerodocs.Channel.{make_chan, close}
use aerodocs.Grpc.Key.{make_key}
use aerodocs.Grpc.TerminalSessions.{
  TerminalSession, TerminalSessions, session_at, with_session, without_session, register,
  close_if_open, remove,
}
use aerodocs.Server.Files.{validate_request_path}
use aerodocs.Server.Terminal.{
  TerminalRequest, CreateTerminalSession, TerminalReply, fails, session_created, Effect, opens,
  Checked, grants, denies, resolve_terminal_execution_user, register_session, begin_create,
  OpenAnswer, open_error, is_success, finish_create,
}
use aerodocs.Server.Terminal.Access.{MayRun, resolve_terminal_execution_user-IsSound}
use aerodocs.Base.{
  ℕ, ◌≡◌, refl, sym, ◌∙◌, ◌⊎◌, inl, inr, true, false, Option, none, some, List, [], ◌∷◌, arith,
  if◌then◌else◌, Bool-cases, Option-cases, Bytes, text, text_eq, eq_of_text_eq, Table, lookup,
  delete, assign, lookup-delete, lookup-assign, lookup-assign_self,
}

abbrev pub new_session : TerminalRequest → Bytes → TerminalSession
unfolding make_chan
new_session r execution_user = record {
  user_id = r.user_id;
  execution_user = execution_user;
  ch = make_chan 256;
  streaming = false;
  closed = false;
}

-- The agent is asked to open a session: its id was free and now belongs to the user of the request, who
-- may run it as the user that the agent is told.
pub record Opening (r : TerminalRequest) (req : CreateTerminalSession) (execution_user : Bytes)
    (ts : TerminalSessions) : Type 0 where
  pub free : session_at r.server_id r.session_id ts ≡ none
  pub may_run : MayRun r execution_user
  pub connected : r.connected ≡ true
  pub directory : (req.cwd ≡ []) ⊎ (validate_request_path req.cwd ≡ none)

abbrev pub opened :
    TerminalRequest
    → CreateTerminalSession
    → Bytes
    → TerminalSessions
    → TerminalSessions × (TerminalReply × List Effect)
opened r req execution_user ts = (
  with_session (make_key r.server_id r.session_id) (new_session r execution_user) ts,
  (session_created r.session_id, opens r.session_id req execution_user ∷ []),
)

Checked-cases :
    (c : Checked Bytes)
    → ((s : ℕ) × ((m : Bytes) × (c ≡ denies s m))) ⊎ ((u : Bytes) × (c ≡ grants u))
Checked-cases (denies s m) = inl (s, (m, refl))
Checked-cases (grants u) = inr (u, refl)

directory_valid :
    (cwd : Bytes)
    → (if text_eq cwd [] then none else validate_request_path cwd) ≡ none
    → (cwd ≡ []) ⊎ (validate_request_path cwd ≡ none)
directory_valid cwd e = elim (Bool-cases (text_eq cwd [])) [
  | inl empty ↦ inl (eq_of_text_eq cwd [] empty)
  | inr given ↦ inr (ground (arith, given, e))
]

-- A request to open a terminal is refused, without any effect and with the sessions as they were, or
-- its new session is registered for the user and the agent is asked to open it: then the id was free,
-- the user may run a terminal there as the user that the agent is told, and the directory is valid.
pub begin_create-Opening :
    (r : TerminalRequest) (body : Option CreateTerminalSession) (ts : TerminalSessions)
    → ((status : ℕ) × ((message : Bytes) × (begin_create r body ts
            ≡ (ts, (fails status message, [])))))
      ⊎ ((req : CreateTerminalSession) × ((execution_user : Bytes) × (Opening r req execution_user
                ts
              × (begin_create r body ts ≡ opened r req execution_user ts))))
unfolding begin_create register_session register
begin_create-Opening r body ts = elim (Bool-cases r.connected) [
  | inr gone ↦ inl (502, (text "agent not connected", rw (gone, begin_create) refl))
  | inl here ↦ elim (Option-cases body) [
    | inl bad ↦ inl (400, (text "invalid request body", rw (here, bad, begin_create) refl))
    | inr (req, decoded) ↦
        elim (Option-cases (if text_eq req.cwd [] then none else validate_request_path req.cwd)) [
          | inr (m, bad) ↦ inl (400, (m, rw (here, decoded, bad, begin_create) refl))
          | inl fine ↦ elim (Checked-cases (resolve_terminal_execution_user r)) [
            | inl (s, (m, denied)) ↦
                inl (s, (m, rw (here, decoded, fine, denied, begin_create) refl))
            | inr (u, granted) ↦
                let start : begin_create r body ts ≡ register_session r req u ts =
                  rw (here, decoded, fine, granted, begin_create) refl in
                elim (Option-cases (session_at r.server_id r.session_id ts)) [
                  | inr (s, taken) ↦ inl (
                    409,
                    (
                      text "terminal session already exists",
                      start ∙ rw (taken, register_session, register) refl,
                    ),
                  )
                  | inl free ↦ inr (
                    req,
                    (
                      u,
                      (
                        record {
                          free = free;
                          may_run = resolve_terminal_execution_user-IsSound r u granted;
                          connected = here;
                          directory = directory_valid req.cwd fine;
                        },
                        start ∙ rw (free, register_session, register) refl,
                      ),
                    ),
                  )
                ]
          ]
        ]
  ]
]

restored :
    (key : Bytes) (s : TerminalSession) (rows : Table TerminalSession)
    → lookup key rows ≡ none
    → (k : Bytes) → lookup k (delete key (assign key s rows)) ≡ lookup k rows
restored key s rows free k = elim (Bool-cases (text_eq key k)) [
  | inl same ↦
      rw (lookup-delete key k (assign key s rows), same)
        (sym (rw (sym (eq_of_text_eq key k same)) free))
  | inr other ↦ rw (lookup-delete key k (assign key s rows), lookup-assign key k s rows, other) refl
]

-- If the agent does not open the session, or does not answer, the handler does not panic, it has no
-- further effect, and every session is found as it was before the request.
pub finish_create_undone :
    (quote : Bytes → Bytes) (r : TerminalRequest) (req : CreateTerminalSession)
    (execution_user : Bytes) (answer : OpenAnswer) (ts : TerminalSessions)
    → Opening r req execution_user ts
    → is_success answer ≡ false
    → (after : TerminalSessions) × ((finish_create quote r req execution_user answer
            (opened r req execution_user ts).0
          ≡ some (after, (open_error answer, [])))
        × ((key : Bytes) → lookup key after.sessions ≡ lookup key ts.sessions))
unfolding finish_create remove close_if_open close new_session make_key
finish_create_undone quote r req u answer ts opening failed =
    let key = make_key r.server_id r.session_id in
    let ts1 = with_session key (new_session r u) ts in
    let held = lookup-assign_self key (new_session r u) ts.sessions in
    let gone : remove r.server_id r.session_id ts1 ≡ some (without_session key ts1, true) =
      rw (held, remove) refl in
    let value : finish_create quote r req u answer ts1
        ≡ some (without_session key ts1, (open_error answer, [])) =
      rw (failed, gone, finish_create) refl in
    (without_session key ts1, (value, restored key (new_session r u) ts.sessions opening.free))
