-- ===== src/Server/Terminal/Owner.antt =====
-- Only the user who opened a session gets at it.
use aerodocs.Grpc.TerminalSessions.{TerminalSession, TerminalSessions, session_at, info_of, get}
use aerodocs.Server.Terminal.{
  TerminalRequest, TerminalReply, fails, Effect, grants, denies, require_terminal_session,
  handle_terminal_input, handle_terminal_resize, handle_close_terminal_session,
}
use aerodocs.Base.{
  ℕ, ◌≡◌, refl, ◌⊎◌, inl, inr, Bool, false, Option, some, List, [], Bool-cases, Option-cases, Bytes,
  text, text_eq, eq_of_text_eq,
}

-- The session of a request exists, and its user opened it.
pub record Owned (r : TerminalRequest) (ts : TerminalSessions) (s : TerminalSession) : Type 0 where
  pub held : session_at r.server_id r.session_id ts ≡ some s
  pub owner : s.user_id ≡ r.user_id

-- A handler's error, without any effect.
abbrev pub Refused : TerminalReply × List Effect → Type 0
Refused out = (status : ℕ) × ((message : Bytes) × (out ≡ (fails status message, [])))

required :
    (r : TerminalRequest) (ts : TerminalSessions)
    → ((status : ℕ) × ((message : Bytes) × (require_terminal_session r ts ≡ denies status message)))
      ⊎ ((s : TerminalSession) × (Owned r ts s
            × (require_terminal_session r ts ≡ grants (info_of s))))
unfolding require_terminal_session get
required r ts = elim (Option-cases (session_at r.server_id r.session_id ts)) [
  | inl gone ↦
      inl (404, (text "terminal session not found", rw (gone, require_terminal_session, get) refl))
  | inr (s, held) ↦ elim (Bool-cases (text_eq s.user_id r.user_id)) [
    | inr other ↦ inl (
      404,
      (text "terminal session not found", rw (held, other, require_terminal_session, get) refl),
    )
    | inl same ↦ inr (
      s,
      (
        record { held = held; owner = eq_of_text_eq s.user_id r.user_id same },
        rw (held, same, require_terminal_session, get) refl,
      ),
    )
  ]
]

-- What an input, a resize or a close needs.
abbrev pub Open : TerminalRequest → TerminalSessions → Type 0
Open r ts = (s : TerminalSession) × (Owned r ts s × (s.closed ≡ false))

input-Owned :
    (r : TerminalRequest) (body : Option Bytes) (sends : Bool) (ts : TerminalSessions)
    → Refused (handle_terminal_input r body sends ts) ⊎ Open r ts
unfolding handle_terminal_input
input-Owned r body sends ts = elim (Bool-cases r.connected) [
  | inr gone ↦ inl (502, (text "agent not connected", rw (gone, handle_terminal_input) refl))
  | inl here ↦ elim (required r ts) [
    | inl (status, (message, e)) ↦ inl (status, (message, rw (here, e, handle_terminal_input) refl))
    | inr (s, (owned, e)) ↦ elim (Bool-cases s.closed) [
      | inl shut ↦
          inl (
            409,
            (text "terminal session is closed", rw (here, e, shut, handle_terminal_input) refl),
          )
      | inr live ↦ inr (s, (owned, live))
    ]
  ]
]

resize-Owned :
    (r : TerminalRequest) (body : Option (ℕ × ℕ)) (sends : Bool) (ts : TerminalSessions)
    → Refused (handle_terminal_resize r body sends ts) ⊎ Open r ts
unfolding handle_terminal_resize
resize-Owned r body sends ts = elim (Bool-cases r.connected) [
  | inr gone ↦ inl (502, (text "agent not connected", rw (gone, handle_terminal_resize) refl))
  | inl here ↦ elim (required r ts) [
    | inl (status, (message, e)) ↦
        inl (status, (message, rw (here, e, handle_terminal_resize) refl))
    | inr (s, (owned, e)) ↦ elim (Bool-cases s.closed) [
      | inl shut ↦ inl (
        409,
        (text "terminal session is closed", rw (here, e, shut, handle_terminal_resize) refl),
      )
      | inr live ↦ inr (s, (owned, live))
    ]
  ]
]

close-Owned :
    (r : TerminalRequest) (ts : TerminalSessions)
    → ((status : ℕ) × ((message : Bytes) × (handle_close_terminal_session r ts
            ≡ some (ts, (fails status message, [])))))
      ⊎ ((s : TerminalSession) × Owned r ts s)
unfolding handle_close_terminal_session
close-Owned r ts = elim (required r ts) [
  | inl (status, (message, e)) ↦ inl (status, (message, rw (e, handle_close_terminal_session) refl))
  | inr (s, (owned, e)) ↦ inr (s, owned)
]

-- An input and a resize are refused without any effect, or the session exists, was opened by the
-- request's user and has not ended. A request to close a session is refused and changes nothing, or
-- the session exists and was opened by the request's user.
pub handle_terminal-Owned :
    (r : TerminalRequest) (body : Option Bytes) (size : Option (ℕ × ℕ)) (sends : Bool)
    (ts : TerminalSessions)
    → (Refused (handle_terminal_input r body sends ts) ⊎ Open r ts)
      × ((Refused (handle_terminal_resize r size sends ts) ⊎ Open r ts)
          × (((status : ℕ) × ((message : Bytes) × (handle_close_terminal_session r ts
                    ≡ some (ts, (fails status message, [])))))
              ⊎ ((s : TerminalSession) × Owned r ts s)))
handle_terminal-Owned r body size sends ts =
    (input-Owned r body sends ts, (resize-Owned r size sends ts, close-Owned r ts))
