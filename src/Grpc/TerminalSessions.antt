-- ===== src/Grpc/TerminalSessions.antt =====
-- hub/internal/grpcserver/terminalsessions.go: terminal sessions on their way to a browser. Each
-- method holds the mutex, so it is one step. `none` is a panic: a send on a closed channel or a
-- second `close`. The channel of a session is kept in its record; the reader's own reference to the
-- channel of a session that was removed is not kept.
pub mod Laws
pub mod Delivery
pub mod Reader
pub mod Attach
pub mod Exit
pub mod EndAll
mod Tests
use aerodocs.Channel.{Chan, make_chan, try_send, close, receive}
use aerodocs.Grpc.Key.{colon, make_key}
use aerodocs.Base.{
  ℕ, zero, suc, ◌+◌, ◌-◌, ◌*◌, ◌/◌, ◌%◌, ◌^◌, ◌≤◌, ◌<◌, ◌≡◌, refl, sym, ap, ◌∙◌, ◌≢◌, ◌↔◌, ◌⊎◌, inl,
  inr, Bool, true, false, not, ◌&&◌, ◌||◌, Option, none, some, List, [], ◌∷◌, ◌++◌, map, arith, ltb,
  leb, ◌==◌, ==_iff, if◌then◌else◌, Bool-cases, Option-cases, ◌>>=◌, length, length-append, take,
  drop, take-append-drop, length-take, length-drop, get_last?, keep, length-keep-le, any, All,
  All-append, All-keep, Bytes, text, text_eq, text_eq_refl, eq_of_text_eq, text_eq_iff,
  ne_of_text_eq, has_prefix, contains, has_prefix-append, eq_of_has_prefix, Lacks, split_unique,
  Table, lookup, delete, assign, Distinct, lookup-delete, lookup-assign, lookup-delete_self,
  lookup-assign_self, delete-Distinct, assign-Distinct, length-delete-le, length-delete-lt,
  length-assign-le, length-assign_old, delete_fresh, Entries, delete-Entries, assign-Entries,
  lookup-Entries,
}

-- An int32 exit code is its bit pattern.
pub data TerminalEvent : Type 0 where
  event_data : Bytes → TerminalEvent
  event_exit : ℕ → Bytes → TerminalEvent

pub record TerminalSession : Type 0 where
  pub user_id : Bytes
  pub execution_user : Bytes
  pub ch : Chan TerminalEvent
  pub streaming : Bool
  pub closed : Bool

pub record TerminalSessionInfo : Type 0 where
  pub user_id : Bytes
  pub execution_user : Bytes
  pub closed : Bool

pub record TerminalSessions : Type 0 where
  pub sessions : Table TerminalSession

unfoldable pub new_terminal_sessions : TerminalSessions
new_terminal_sessions = record { sessions = [] }

abbrev pub session_at : Bytes → Bytes → TerminalSessions → Option TerminalSession
session_at server session ts = lookup (make_key server session) ts.sessions

abbrev pub with_session : Bytes → TerminalSession → TerminalSessions → TerminalSessions
with_session key s ts = record { sessions = assign key s ts.sessions }

abbrev pub info_of : TerminalSession → TerminalSessionInfo
info_of s = record { user_id = s.user_id; execution_user = s.execution_user; closed = s.closed }

-- The result is false if the key is taken.
unfoldable pub register : Bytes → Bytes → Bytes → Bytes → TerminalSessions → TerminalSessions × Bool
unfolding make_chan
register server session user_id execution_user ts = elim (session_at server session ts) [
  | some s ↦ (ts, false)
  | none ↦ (
    with_session (make_key server session)
        (record {
          user_id = user_id;
          execution_user = execution_user;
          ch = make_chan 256;
          streaming = false;
          closed = false;
        })
        ts,
    true,
  )
]

unfoldable pub get : Bytes → Bytes → TerminalSessions → Option TerminalSessionInfo
get server session ts = elim (session_at server session ts) [
  | none ↦ none
  | some s ↦ some (info_of s)
]

-- The results of `AttachStream`: (exists, attached) and, if both hold, the session's data.
pub data Attached : Type 0 where
  missing busy : Attached
  attached : TerminalSessionInfo → Attached

unfoldable pub attach_stream :
    Bytes → Bytes → Bytes → TerminalSessions → TerminalSessions × Attached
attach_stream server session user_id ts = elim (session_at server session ts) [
  | none ↦ (ts, missing)
  | some s ↦
      if not (text_eq s.user_id user_id)
      then (ts, missing)
      else if s.streaming
      then (ts, busy)
      else (
        with_session (make_key server session) (record s { streaming = true }) ts,
        attached (info_of s),
      )
]

unfoldable pub deliver_data :
    Bytes → Bytes → Bytes → TerminalSessions → Option (TerminalSessions × Bool)
unfolding try_send
deliver_data server session bytes ts = elim (session_at server session ts) [
  | none ↦ some (ts, false)
  | some s ↦
      if s.closed
      then some (ts, false)
      else try_send s.ch (event_data bytes) >>= λ r.
          some (with_session (make_key server session) (record s { ch = r.0 }) ts, r.1)
]

-- The loop of `deliverExit` and the send behind it. With nothing to evict it gives up.
unfoldable pub evict_and_send : ℕ → List TerminalEvent → TerminalEvent → List TerminalEvent
evict_and_send cap [] evt = if cap == 0 then [] else evt ∷ []
evict_and_send cap (x ∷ xs) evt =
    let evicted = evict_and_send cap xs evt in
    if length (x ∷ xs) == cap then evicted else (x ∷ xs) ++ evt ∷ []

unfoldable pub deliver_exit : Chan TerminalEvent → TerminalEvent → Option (Chan TerminalEvent)
unfolding evict_and_send
deliver_exit ch evt =
    if ch.closed then none else some (record ch { buffer = evict_and_send ch.cap ch.buffer evt })

-- The end of one session, in `End` and in `EndAll`.
unfoldable pub finish : ℕ → Bytes → TerminalSession → Option TerminalSession
unfolding deliver_exit close
finish exit_code error s = do
  with_exit ← deliver_exit s.ch (event_exit exit_code error)
  shut ← close with_exit
  some (record s { ch = shut; closed = true })

unfoldable pub end : Bytes → Bytes → ℕ → Bytes → TerminalSessions → Option (TerminalSessions × Bool)
unfolding finish
end server session exit_code error ts = elim (session_at server session ts) [
  | none ↦ some (ts, false)
  | some s ↦
      if s.closed
      then some (ts, false)
      else finish exit_code error s >>= λ s'.
          some (with_session (make_key server session) s' ts, true)
]

-- `if !s.closed { close(s.ch) }`, before a session is dropped.
unfoldable pub close_if_open : TerminalSession → Option TerminalSession
unfolding close
close_if_open s =
    if s.closed then some s else (close s.ch >>= λ ch. some (record s { ch = ch; closed = true }))

abbrev pub without_session : Bytes → TerminalSessions → TerminalSessions
without_session key ts = record { sessions = delete key ts.sessions }

-- The result is (already closed, removed).
unfoldable pub remove_if_hub_initiated :
    Bytes → Bytes → TerminalSessions → Option (TerminalSessions × Bool × Bool)
unfolding close_if_open
remove_if_hub_initiated server session ts = elim (session_at server session ts) [
  | none ↦ some (ts, false, false)
  | some s ↦
      close_if_open s >>= λ s'. some (without_session (make_key server session) ts, s.closed, true)
]

abbrev of_server : Bytes → Bytes → Bool
of_server server key = has_prefix key (server ++ colon ∷ [])

-- The loop of `EndAll`.
unfoldable pub end_each : Bytes → ℕ → Bytes → Table TerminalSession → Option (Table TerminalSession)
unfolding finish
end_each server exit_code error [] = some []
end_each server exit_code error ((key, s) ∷ m) = do
  rest ← end_each server exit_code error m
  s' ← if not (of_server server key) || s.closed then some s else finish exit_code error s
  some ((key, s') ∷ rest)

unfoldable pub end_all : Bytes → ℕ → Bytes → TerminalSessions → Option TerminalSessions
unfolding end_each
end_all server exit_code error ts = do
  m ← end_each server exit_code error ts.sessions
  some (record { sessions = m })

unfoldable pub remove_unattached :
    Bytes → Bytes → TerminalSessions → Option (TerminalSessions × Bool)
unfolding close_if_open
remove_unattached server session ts = elim (session_at server session ts) [
  | none ↦ some (ts, false)
  | some s ↦
      if s.streaming
      then some (ts, false)
      else close_if_open s >>= λ s'. some (without_session (make_key server session) ts, true)
]

unfoldable pub remove : Bytes → Bytes → TerminalSessions → Option (TerminalSessions × Bool)
unfolding close_if_open
remove server session ts = elim (session_at server session ts) [
  | none ↦ some (ts, false)
  | some s ↦ close_if_open s >>= λ s'. some (without_session (make_key server session) ts, true)
]

-- `<-info.Ch` in `handleTerminalStream`; no event if it waits or the channel is closed and empty.
unfoldable pub read : Bytes → Bytes → TerminalSessions → TerminalSessions × Option TerminalEvent
unfolding receive
read server session ts = elim (session_at server session ts) [
  | none ↦ (ts, none)
  | some s ↦ (
    with_session (make_key server session) (record s { ch = (receive s.ch).0 }) ts,
    (receive s.ch).1,
  )
]
