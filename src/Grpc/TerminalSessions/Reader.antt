-- ===== src/Grpc/TerminalSessions/Reader.antt =====
-- The reader of a terminal's stream under each operation on the sessions.
use aerodocs.Channel.{receive}
use aerodocs.Grpc.Key.{make_key}
use aerodocs.Grpc.TerminalSessions.{
  event_data, TerminalSession, TerminalSessions, session_at, with_session, without_session,
  attach_stream, register, deliver_data, finish, end, end_each, close_if_open,
  remove_if_hub_initiated, end_all, remove_unattached, remove, read,
}
use aerodocs.Grpc.TerminalSessions.Laws.{Op, hub_removes, removes}
use aerodocs.Base.{
  ℕ, ◌≡◌, refl, ◌∙◌, inl, inr, true, false, Option, none, some, [], ◌∷◌, ◌++◌, arith, if◌then◌else◌,
  Bool-cases, Option-cases, ◌>>=◌, Bytes, text_eq, eq_of_text_eq, Table, lookup, lookup-delete,
  lookup-assign,
}

-- Who reads the stream of a session, if anybody does.
abbrev pub reader : Option TerminalSession → Option Bytes
reader none = none
reader (some s) = if s.streaming then some s.user_id else none

-- The operation does not remove the session of the key for the hub's side.
abbrev pub Spares : Bytes → Op → Type 0
Spares k (hub_removes s r) = text_eq (make_key s r) k ≡ false
Spares k (removes s r) = text_eq (make_key s r) k ≡ false
Spares k _ = Unit

finish-keeps :
    (code : ℕ) (error : Bytes) (s s' : TerminalSession)
    → finish code error s ≡ some s'
    → (s'.streaming ≡ s.streaming) × (s'.user_id ≡ s.user_id)
unfolding finish
finish-keeps code error s s' done = ground arith

end_each-keeps :
    (k server : Bytes) (code : ℕ) (error : Bytes) (m m' : Table TerminalSession)
    → end_each server code error m ≡ some m'
    → reader (lookup k m') ≡ reader (lookup k m)
unfolding end_each lookup
end_each-keeps k server code error [] m' ran = ground arith
end_each-keeps k server code error ((j, s) ∷ m) m' ran =
    elim (Option-cases (end_each server code error m)) [
      | inl panic ↦ absurd (ground (arith, ran, panic))
      | inr (rest, ran_rest) ↦
          let ih = end_each-keeps k server code error m rest ran_rest in
          elim (Option-cases (finish code error s)) [
            | inl panic ↦ ground (arith, ran, ran_rest, panic, ih)
            | inr (s', done) ↦
                ground (arith, ran, ran_rest, done, ih, finish-keeps code error s s' done)
          ]
    ]

module _ (k u : Bytes) (ts : TerminalSessions) (has : reader (lookup k ts.sessions) ≡ some u) where
  replaced-reader :
      (j : Bytes) (s s' : TerminalSession)
      → lookup j ts.sessions ≡ some s
      → s'.streaming ≡ s.streaming
      → s'.user_id ≡ s.user_id
      → reader (lookup k (with_session j s' ts).sessions) ≡ some u
  replaced-reader j s s' held same_stream same_user = elim (Bool-cases (text_eq j k)) [
    | inl here ↦
        let held_k : lookup k ts.sessions ≡ some s = rw (← eq_of_text_eq j k here) held in
        rw (lookup-assign j k s' ts.sessions, here, same_stream, same_user) (rw held_k at has)
    | inr there ↦ rw (lookup-assign j k s' ts.sessions, there) has
  ]

  removed-reader :
      (j : Bytes) → text_eq j k ≡ false → reader (lookup k (without_session j ts).sessions) ≡ some u
  removed-reader j there = rw (lookup-delete j k ts.sessions, there) has

  -- The session still has the reader, unless the operation panics.
  abbrev pub Keeps : Option TerminalSessions → Type 0
  Keeps none = Unit
  Keeps (some ts') = reader (lookup k ts'.sessions) ≡ some u

  pub register-reader : (s r user run_as : Bytes) → Keeps (some (register s r user run_as ts).0)
  unfolding register
  register-reader s r user run_as = elim (Option-cases (session_at s r ts)) [
    | inl gone ↦ elim (Bool-cases (text_eq (make_key s r) k)) [
      | inl here ↦
          let missing_k : lookup k ts.sessions ≡ none =
            rw (← eq_of_text_eq (make_key s r) k here) gone in
          absurd (let e = (rw missing_k at has) in cc)
      | inr there ↦
          rw (gone, register) (rw (lookup-assign (make_key s r) k _ ts.sessions, there) has)
    ]
    | inr (t, held) ↦ rw (held, register) has
  ]

  pub attach-reader : (s r user : Bytes) → Keeps (some (attach_stream s r user ts).0)
  unfolding attach_stream
  attach-reader s r user = elim (Option-cases (session_at s r ts)) [
    | inl gone ↦ rw (gone, attach_stream) has
    | inr (t, held) ↦ elim (Bool-cases (text_eq t.user_id user)) [
      | inr other ↦ rw (held, other, attach_stream) has
      | inl owner ↦ elim (Bool-cases t.streaming) [
        | inl used ↦ ground (arith, held, owner, used)
        | inr idle ↦ elim (Bool-cases (text_eq (make_key s r) k)) [
          | inl here ↦
              let held_k : lookup k ts.sessions ≡ some t =
                rw (← eq_of_text_eq (make_key s r) k here) held in
              absurd (ground (arith, has, held_k, idle))
          | inr there ↦ ground (
            arith,
            held,
            owner,
            idle,
            there,
            lookup-assign (make_key s r) k (record t { streaming = true }) ts.sessions,
          )
        ]
      ]
    ]
  ]

  pub deliver-reader : (s r bytes : Bytes) → Keeps (deliver_data s r bytes ts >>= λ p. some p.0)
  unfolding deliver_data
  deliver-reader s r bytes = elim (Option-cases (session_at s r ts)) [
    | inl gone ↦ rw (gone, deliver_data) has
    | inr (t, held) ↦
        let longer : TerminalSession = record t {
          ch = record t.ch { buffer = t.ch.buffer ++ event_data bytes ∷ [] };
        } in
        ground (
          arith,
          held,
          replaced-reader (make_key s r) t longer held refl refl,
          replaced-reader (make_key s r) t t held refl refl,
        )
  ]

  pub read-reader : (s r : Bytes) → Keeps (some (read s r ts).0)
  unfolding read
  read-reader s r = elim (Option-cases (session_at s r ts)) [
    | inl gone ↦ rw (gone, read) has
    | inr (t, held) ↦
        rw (held, read)
          (replaced-reader (make_key s r) t (record t { ch = (receive t.ch).0 }) held refl refl)
  ]

  pub end-reader :
      (s r : Bytes) (code : ℕ) (error : Bytes) → Keeps (end s r code error ts >>= λ p. some p.0)
  unfolding end
  end-reader s r code error = elim (Option-cases (session_at s r ts)) [
    | inl gone ↦ rw (gone, end) has
    | inr (t, held) ↦ elim (Bool-cases t.closed) [
      | inl shut ↦ rw (held, shut, end) has
      | inr still ↦ elim (Option-cases (finish code error t)) [
        | inl panic ↦ rw (held, still, panic, end) tt
        | inr (t', done) ↦
            let (same_stream, same_user) = finish-keeps code error t t' done in
            rw (held, still, done, end)
              (replaced-reader (make_key s r) t t' held same_stream same_user)
      ]
    ]
  ]

  pub hub_remove-reader :
      (s r : Bytes)
      → text_eq (make_key s r) k ≡ false
      → Keeps (remove_if_hub_initiated s r ts >>= λ p. some p.0)
  unfolding remove_if_hub_initiated
  hub_remove-reader s r there = elim (Option-cases (session_at s r ts)) [
    | inl gone ↦ rw (gone, remove_if_hub_initiated) has
    | inr (t, held) ↦ elim (Option-cases (close_if_open t)) [
      | inl panic ↦ rw (held, panic, remove_if_hub_initiated) tt
      | inr (t', shut) ↦
          rw (held, shut, remove_if_hub_initiated) (removed-reader (make_key s r) there)
    ]
  ]

  pub remove-reader :
      (s r : Bytes) → text_eq (make_key s r) k ≡ false → Keeps (remove s r ts >>= λ p. some p.0)
  unfolding remove
  remove-reader s r there = elim (Option-cases (session_at s r ts)) [
    | inl gone ↦ rw (gone, remove) has
    | inr (t, held) ↦ elim (Option-cases (close_if_open t)) [
      | inl panic ↦ rw (held, panic, remove) tt
      | inr (t', shut) ↦ rw (held, shut, remove) (removed-reader (make_key s r) there)
    ]
  ]

  pub remove_unattached-reader : (s r : Bytes) → Keeps (remove_unattached s r ts >>= λ p. some p.0)
  unfolding remove_unattached
  remove_unattached-reader s r = elim (Option-cases (session_at s r ts)) [
    | inl gone ↦ rw (gone, remove_unattached) has
    | inr (t, held) ↦ elim (Option-cases (close_if_open t)) [
      | inl panic ↦ ground (arith, held, panic, has)
      | inr (t', shut) ↦ elim (Bool-cases (text_eq (make_key s r) k)) [
        | inl here ↦
            let held_k : lookup k ts.sessions ≡ some t =
              rw (← eq_of_text_eq (make_key s r) k here) held in
            ground (arith, held, has, held_k)
        | inr there ↦ ground (arith, held, shut, has, removed-reader (make_key s r) there)
      ]
    ]
  ]

  pub end_all-reader : (s : Bytes) (code : ℕ) (error : Bytes) → Keeps (end_all s code error ts)
  unfolding end_all
  end_all-reader s code error = elim (Option-cases (end_each s code error ts.sessions)) [
    | inl panic ↦ rw (panic, end_all) tt
    | inr (m', ran) ↦ rw (ran, end_all) (end_each-keeps k s code error ts.sessions m' ran ∙ has)
  ]
