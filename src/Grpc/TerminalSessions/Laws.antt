-- ===== src/Grpc/TerminalSessions/Laws.antt =====
-- No order of operations on the terminal sessions panics.
use aerodocs.Channel.{Chan, make_chan, receive, receive-closed, receive-cap, length-receive-le}
use aerodocs.Grpc.Key.{make_key}
use aerodocs.Grpc.TerminalSessions.{
  TerminalEvent, event_data, TerminalSession, TerminalSessions, session_at, with_session,
  without_session, register, attach_stream, deliver_data, end, close_if_open,
  remove_if_hub_initiated, end_all, remove_unattached, remove, read,
}
use aerodocs.Grpc.TerminalSessions.Exit.{IsSound, finish-Finished}
use aerodocs.Grpc.TerminalSessions.EndAll.{end_all-IsSound}
use aerodocs.Base.{
  ℕ, ◌≡◌, refl, ◌∙◌, inl, inr, Bool, true, false, Option, some, List, [], ◌∷◌, ◌++◌, arith, ltb,
  Bool-cases, Option-cases, ◌>>=◌, length, length-append, Bytes, Entries, delete-Entries,
  assign-Entries, lookup-Entries,
}

abbrev pub IsValid : TerminalSessions → Type 0
IsValid ts = Entries IsSound ts.sessions

pub data Op : Type 0 where
  registers : Bytes → Bytes → Bytes → Bytes → Op
  attaches : Bytes → Bytes → Bytes → Op
  delivers : Bytes → Bytes → Bytes → Op
  ends : Bytes → Bytes → ℕ → Bytes → Op
  hub_removes removes_unattached removes reads : Bytes → Bytes → Op
  ends_all : Bytes → ℕ → Bytes → Op

abbrev pub state_of {ℓ} : {R : Type ℓ} → Option (TerminalSessions × R) → Option TerminalSessions
state_of o = o >>= λ p. some p.0

abbrev pub state_of₂ : Option (TerminalSessions × Bool × Bool) → Option TerminalSessions
state_of₂ o = o >>= λ p. some p.0

-- The state after an operation; `none` is a panic.
unfoldable pub step : TerminalSessions → Op → Option TerminalSessions
step ts (registers s r user run_as) = some (register s r user run_as ts).0
step ts (attaches s r user) = some (attach_stream s r user ts).0
step ts (delivers s r bytes) = state_of (deliver_data s r bytes ts)
step ts (ends s r code error) = state_of (end s r code error ts)
step ts (hub_removes s r) = state_of₂ (remove_if_hub_initiated s r ts)
step ts (removes_unattached s r) = state_of (remove_unattached s r ts)
step ts (removes s r) = state_of (remove s r ts)
step ts (reads s r) = some (read s r ts).0
step ts (ends_all s code error) = end_all s code error ts

unfoldable pub run : TerminalSessions → List Op → Option TerminalSessions
run ts [] = some ts
run ts (o ∷ os) = do ts' ← step ts o; run ts' os

abbrev pub ValidAfter : Option TerminalSessions → Type 0
ValidAfter o = (ts : TerminalSessions) × (o ≡ some ts) × IsValid ts

close_if_open-total :
    (key : Bytes) (s : TerminalSession)
    → IsSound key s
    → (s' : TerminalSession) × (close_if_open s ≡ some s')
unfolding close_if_open
close_if_open-total key s v = elim (Bool-cases s.closed) [
  | inl shut ↦ (s, rw (shut) refl)
  | inr still ↦
      (record s { ch = record s.ch { closed = true }; closed = true }, ground (arith, v.agree))
]

module _ (ts : TerminalSessions) (v : IsValid ts) (s r : Bytes) where
  register-IsValid : (user run_as : Bytes) → IsValid (register s r user run_as ts).0
  unfolding register
  register-IsValid user run_as =
      ground (arith, assign-Entries IsSound (make_key s r) fresh ts.sessions sound v)
    where
      fresh : TerminalSession
      fresh = record {
        user_id = user;
        execution_user = run_as;
        ch = make_chan 256;
        streaming = false;
        closed = false;
      }

      sound : IsSound (make_key s r) fresh
      sound = record { agree = refl; cap = refl; bounded = omega arith }

  -- A session of the table may be replaced by a sound one.
  module _ (t : TerminalSession) (held : session_at s r ts ≡ some t) where
    IsSound-held : IsSound (make_key s r) t
    IsSound-held = lookup-Entries IsSound (make_key s r) ts.sessions t v held

    replaced :
        (t' : TerminalSession)
        → IsSound (make_key s r) t'
        → IsValid (with_session (make_key s r) t' ts)
    replaced t' sound = assign-Entries IsSound (make_key s r) t' ts.sessions sound v

  without : IsValid (without_session (make_key s r) ts)
  without = delete-Entries IsSound (make_key s r) ts.sessions v

  attach-IsValid : (user : Bytes) → IsValid (attach_stream s r user ts).0
  unfolding attach_stream
  attach-IsValid user = elim (Option-cases (session_at s r ts)) [
    | inl gone ↦ rw (gone, attach_stream) v
    | inr (t, held) ↦
        let sound = IsSound-held t held in
        let streamed : IsSound (make_key s r) (record t { streaming = true }) = record {
          agree = sound.agree;
          cap = sound.cap;
          bounded = sound.bounded;
        } in
        ground (arith, held, replaced t held (record t { streaming = true }) streamed)
  ]

  read-IsValid : IsValid (read s r ts).0
  unfolding read
  read-IsValid = elim (Option-cases (session_at s r ts)) [
    | inl gone ↦ rw (gone, read) v
    | inr (t, held) ↦
        let sound = IsSound-held t held in
        let shorter : IsSound (make_key s r) (record t { ch = (receive t.ch).0 }) = record {
          agree = receive-closed t.ch ∙ sound.agree;
          cap = receive-cap t.ch ∙ sound.cap;
          bounded = omega (arith, length-receive-le t.ch, sound.bounded);
        } in
        rw (held, read) (replaced t held (record t { ch = (receive t.ch).0 }) shorter)
  ]

  deliver-IsValid : (bytes : Bytes) → ValidAfter (state_of (deliver_data s r bytes ts))
  unfolding deliver_data
  deliver-IsValid bytes = elim (Option-cases (session_at s r ts)) [
    | inl gone ↦ (ts, rw (gone, deliver_data) refl, v)
    | inr (t, held) ↦
        let sound = IsSound-held t held in
        let longer : Chan TerminalEvent = record t.ch {
          buffer = t.ch.buffer ++ event_data bytes ∷ [];
        } in
        elim (Bool-cases t.closed) [
          | inl shut ↦ (ts, ground (arith, held, shut), v)
          | inr still ↦ elim (Bool-cases (ltb (length t.ch.buffer) 256)) [
            | inl room ↦
                let fits : IsSound (make_key s r) (record t { ch = longer }) = record {
                  agree = sound.agree;
                  cap = sound.cap;
                  bounded = ground (arith, room, length-append t.ch.buffer (event_data bytes ∷ []));
                } in
                (
                  with_session (make_key s r) (record t { ch = longer }) ts,
                  ground (arith, held, still, sound, room),
                  replaced t held (record t { ch = longer }) fits,
                )
            | inr full ↦ (
              with_session (make_key s r) t ts,
              ground (arith, held, still, sound, full),
              replaced t held t sound,
            )
          ]
        ]
  ]

  end-IsValid : (code : ℕ) (error : Bytes) → ValidAfter (state_of (end s r code error ts))
  unfolding end
  end-IsValid code error = elim (Option-cases (session_at s r ts)) [
    | inl gone ↦ (ts, rw (gone, end) refl, v)
    | inr (t, held) ↦ elim (Bool-cases t.closed) [
      | inl shut ↦ (ts, rw (held, shut, end) refl, v)
      | inr still ↦
          let (t', done, finished, sound) =
            finish-Finished (make_key s r) code error t (IsSound-held t held) still in
          (
            with_session (make_key s r) t' ts,
            rw (held, still, done, end) refl,
            replaced t held t' sound,
          )
    ]
  ]

  hub_remove-IsValid : ValidAfter (state_of₂ (remove_if_hub_initiated s r ts))
  unfolding remove_if_hub_initiated
  hub_remove-IsValid = elim (Option-cases (session_at s r ts)) [
    | inl gone ↦ (ts, rw (gone, remove_if_hub_initiated) refl, v)
    | inr (t, held) ↦
        let (t', shut) = close_if_open-total (make_key s r) t (IsSound-held t held) in
        (without_session (make_key s r) ts, rw (held, shut, remove_if_hub_initiated) refl, without)
  ]

  remove_unattached-IsValid : ValidAfter (state_of (remove_unattached s r ts))
  unfolding remove_unattached
  remove_unattached-IsValid = elim (Option-cases (session_at s r ts)) [
    | inl gone ↦ (ts, rw (gone, remove_unattached) refl, v)
    | inr (t, held) ↦
        let (t', shut) = close_if_open-total (make_key s r) t (IsSound-held t held) in
        elim (Bool-cases t.streaming) [
          | inl used ↦ (ts, rw (held, used, remove_unattached) refl, v)
          | inr idle ↦ (
            without_session (make_key s r) ts,
            rw (held, shut, idle, remove_unattached) refl,
            without,
          )
        ]
  ]

  remove-IsValid : ValidAfter (state_of (remove s r ts))
  unfolding remove
  remove-IsValid = elim (Option-cases (session_at s r ts)) [
    | inl gone ↦ (ts, rw (gone, remove) refl, v)
    | inr (t, held) ↦
        let (t', shut) = close_if_open-total (make_key s r) t (IsSound-held t held) in
        (without_session (make_key s r) ts, rw (held, shut, remove) refl, without)
  ]

pub step-IsValid : (ts : TerminalSessions) (o : Op) → IsValid ts → ValidAfter (step ts o)
unfolding step
step-IsValid ts (registers s r user run_as) v = (_, refl, register-IsValid ts v s r user run_as)
step-IsValid ts (attaches s r user) v = (_, refl, attach-IsValid ts v s r user)
step-IsValid ts (delivers s r bytes) v = deliver-IsValid ts v s r bytes
step-IsValid ts (ends s r code error) v = end-IsValid ts v s r code error
step-IsValid ts (hub_removes s r) v = hub_remove-IsValid ts v s r
step-IsValid ts (removes_unattached s r) v = remove_unattached-IsValid ts v s r
step-IsValid ts (removes s r) v = remove-IsValid ts v s r
step-IsValid ts (reads s r) v = (_, refl, read-IsValid ts v s r)
step-IsValid ts (ends_all s code error) v = end_all-IsSound s code error ts v

-- Whatever the order of the methods' calls, none of them sends on a closed channel or closes one
-- twice; each session's flag agrees with its channel, and each buffer holds at most 256 events.
pub run_total :
    (ts : TerminalSessions) (os : List Op)
    → IsValid ts
    → (ts' : TerminalSessions) × (run ts os ≡ some ts') × IsValid ts'
unfolding run
run_total ts [] v = (ts, refl, v)
run_total ts (o ∷ os) v =
    let (ts', stepped, v') = step-IsValid ts o v in rw stepped (run_total ts' os v')
