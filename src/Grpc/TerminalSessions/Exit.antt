-- ===== src/Grpc/TerminalSessions/Exit.antt =====
-- The end of a session: the exit event always reaches the buffer.
use aerodocs.Grpc.Key.{make_key}
use aerodocs.Grpc.TerminalSessions.{
  TerminalEvent, event_exit, TerminalSession, TerminalSessions, session_at, evict_and_send, finish,
  end,
}
use aerodocs.Base.{
  ℕ, ◌≤◌, ◌<◌, ◌≡◌, refl, ap, inl, inr, true, false, some, List, [], ◌∷◌, ◌++◌, arith, ◌==◌,
  if◌then◌else◌, Bool-cases, length, length-append, Bytes, assign, lookup-assign_self, Entries,
  lookup-Entries,
}

-- The session's flag is its channel's, and the buffer is within its 256 places.
pub record IsSound (key : Bytes) (s : TerminalSession) : Type 0 where
  pub agree : s.ch.closed ≡ s.closed
  pub cap : s.ch.cap ≡ 256
  pub bounded : length s.ch.buffer ≤ 256

-- What `finish` makes of an open session: the exit event is the last in the buffer, behind what was
-- there; if the buffer was full, its oldest event is gone, else none is.
pub record Finished (exit_code : ℕ) (error : Bytes) (s s' : TerminalSession) : Type 0 where
  pub lost : List TerminalEvent
  pub kept : List TerminalEvent
  pub before : s.ch.buffer ≡ lost ++ kept
  pub after : s'.ch.buffer ≡ kept ++ event_exit exit_code error ∷ []
  pub losses : length lost ≡ (if length s.ch.buffer == 256 then 1 else 0)
  pub shut : s'.closed ≡ true
  pub owner : s'.user_id ≡ s.user_id
  pub streaming : s'.streaming ≡ s.streaming

evict_and_send-room :
    (cap : ℕ) (xs : List TerminalEvent) (evt : TerminalEvent)
    → length xs < cap
    → evict_and_send cap xs evt ≡ xs ++ evt ∷ []
unfolding evict_and_send
evict_and_send-room cap [] evt h = ground arith
evict_and_send-room cap (x ∷ xs) evt h = ground arith

evict_and_send-full :
    (cap : ℕ) (x : TerminalEvent) (xs : List TerminalEvent) (evt : TerminalEvent)
    → length (x ∷ xs) ≡ cap
    → evict_and_send cap (x ∷ xs) evt ≡ xs ++ evt ∷ []
unfolding evict_and_send
evict_and_send-full cap x xs evt h = ground (arith, evict_and_send-room cap xs evt)

-- Where the buffer is within its bound, sending the exit event evicts at most one event.
split_buffer :
    (xs : List TerminalEvent) (evt : TerminalEvent)
    → length xs ≤ 256
    → (lost kept : List TerminalEvent) × (xs ≡ lost ++ kept)
      × (evict_and_send 256 xs evt ≡ kept ++ evt ∷ [])
      × (length lost ≡ (if length xs == 256 then 1 else 0))
split_buffer [] evt h = ([], [], refl, evict_and_send-room 256 [] evt (omega arith), refl)
split_buffer (x ∷ xs) evt h = elim (Bool-cases (length (x ∷ xs) == 256)) [
  | inl full ↦ (x ∷ [], xs, refl, evict_and_send-full 256 x xs evt (ground arith), rw full refl)
  | inr room ↦ ([], x ∷ xs, refl, evict_and_send-room 256 (x ∷ xs) evt (ground arith), rw room refl)
]

-- An open session ends without a panic, with its exit event in the buffer.
pub finish-Finished :
    (key : Bytes) (exit_code : ℕ) (error : Bytes) (s : TerminalSession)
    → IsSound key s
    → s.closed ≡ false
    → (s' : TerminalSession) × (finish exit_code error s ≡ some s')
      × Finished exit_code error s s'
      × IsSound key s'
unfolding finish
finish-Finished key exit_code error s v open_s =
    let (lost, kept, before, after, losses) =
      split_buffer s.ch.buffer (event_exit exit_code error) v.bounded in
    let full : List TerminalEvent = evict_and_send 256 s.ch.buffer (event_exit exit_code error) in
    (
      record s { ch = record { buffer = full; cap = 256; closed = true }; closed = true },
      rw (v.agree, open_s, v.cap) refl,
      record {
        lost = lost;
        kept = kept;
        before = before;
        after = after;
        losses = losses;
        shut = refl;
        owner = refl;
        streaming = refl;
      },
      record {
        agree = refl;
        cap = refl;
        bounded = ground (
          arith,
          after,
          ap length before,
          length-append lost kept,
          length-append kept (event_exit exit_code error ∷ []),
        );
      },
    )

-- `End` on an open session puts the exit event last in its buffer, which it closes, and loses the
-- oldest event only if the buffer was full; a second `End` answers false and changes nothing.
pub end-Finished :
    (server session : Bytes) (exit_code code : ℕ) (error err : Bytes) (ts : TerminalSessions)
    (s : TerminalSession)
    → Entries IsSound ts.sessions
    → session_at server session ts ≡ some s
    → s.closed ≡ false
    → (ts' : TerminalSessions) × (s' : TerminalSession) × (end server session exit_code error ts
        ≡ some (ts', true))
      × (session_at server session ts' ≡ some s')
      × Finished exit_code error s s'
      × (end server session code err ts' ≡ some (ts', false))
unfolding end
end-Finished server session exit_code code error err ts s v held open_s =
    let key = make_key server session in
    let (s', done, finished, sound) =
      finish-Finished key exit_code error s (lookup-Entries IsSound key ts.sessions s v held)
        open_s in
    let kept = lookup-assign_self key s' ts.sessions in
    (
      record { sessions = assign key s' ts.sessions },
      s',
      rw (held, open_s, done, end) refl,
      kept,
      finished,
      rw (kept, finished.shut, end) refl,
    )
