-- ===== src/Server/Terminal/Tests.antt =====
-- An admin's terminal that the agent does not open, and a session of another user.
use aerodocs.Channel.{make_chan}
use aerodocs.Grpc.Key.{make_key}
use aerodocs.Grpc.TerminalSessions.{TerminalSession, TerminalSessions, session_at}
use aerodocs.Server.Gate.{User}
use aerodocs.Server.Terminal.{
  TerminalRequest, CreateTerminalSession, fails, grants, resolve_terminal_execution_user,
  begin_create, timed_out, open_error, finish_create,
}
use aerodocs.Server.Terminal.Access.{resolve_terminal_execution_user-IsSound}
use aerodocs.Server.Terminal.Creation.{Opening, opened, begin_create-Opening, finish_create_undone}
use aerodocs.Base.{
  ℕ, ◌≡◌, refl, ◌⊎◌, inl, true, false, none, some, [], ◌∷◌, Bytes, text, text_eq, lookup,
}

abbrev admin : User
admin = record {
  id = text "u";
  username = text "ann";
  ldap_username = [];
  role = text "admin";
  auth_provider = text "local";
  terminal_access = false;
  token_generation = 0;
}

abbrev request : TerminalRequest
request = record {
  user_id = text "u";
  server_id = text "s";
  session_id = text "t";
  connected = true;
  user = some admin;
  paths = some [];
}

abbrev body : CreateTerminalSession
body = record { cols = 80; rows = 24; cwd = [] }

abbrev held : TerminalSession
unfolding make_chan
held = record {
  user_id = text "v";
  execution_user = [];
  ch = make_chan 256;
  streaming = true;
  closed = false;
}

abbrev one_session : TerminalSessions
unfolding make_key
one_session = record { sessions = (make_key (text "s") (text "q"), held) ∷ [] }

begin_create-Opening_example :
    ((status : ℕ) × ((message : Bytes) × (begin_create request (some body) one_session
          ≡ (one_session, (fails status message, [])))))
    ⊎ ((req : CreateTerminalSession) × ((execution_user : Bytes) × (Opening request req
              execution_user one_session
            × (begin_create request (some body) one_session
                ≡ opened request req execution_user one_session))))
begin_create-Opening_example = begin_create-Opening request (some body) one_session

granted : resolve_terminal_execution_user request ≡ grants []
unfolding resolve_terminal_execution_user text_eq
granted = refl

free : session_at (text "s") (text "t") one_session ≡ none
unfolding lookup make_key text_eq
free = refl

opening : Opening request body [] one_session
opening = record {
  free = free;
  may_run = resolve_terminal_execution_user-IsSound request [] granted;
  connected = refl;
  directory = inl refl;
}

finish_create_undone_example :
    (after : TerminalSessions) × ((finish_create
          (λ b. b)
          request
          body
          []
          timed_out
          (opened request body [] one_session).0
        ≡ some (after, (open_error timed_out, [])))
      × ((key : Bytes) → lookup key after.sessions ≡ lookup key one_session.sessions))
finish_create_undone_example =
    finish_create_undone (λ b. b) request body [] timed_out one_session opening refl
