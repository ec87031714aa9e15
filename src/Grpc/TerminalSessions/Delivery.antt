-- ===== src/Grpc/TerminalSessions/Delivery.antt =====
-- What an agent sends of a terminal touches no other terminal.
use aerodocs.Grpc.Key.{make_key}
use aerodocs.Grpc.Elsewhere.{Elsewhere, assign-Elsewhere}
use aerodocs.Grpc.TerminalSessions.{
  TerminalSession, TerminalSessions, session_at, with_session, event_data, deliver_data, finish,
  end,
}
use aerodocs.Channel.{try_send}
use aerodocs.Base.{ℕ, ◌≡◌, sym, inl, inr, Bool, some, arith, Bool-cases, Option-cases, Bytes}

module _ (server session : Bytes) (ts ts' : TerminalSessions) (sent : Bool) where
  pub deliver_data-Elsewhere :
      (content : Bytes)
      → deliver_data server session content ts ≡ some (ts', sent)
      → Elsewhere (make_key server session) ts.sessions ts'.sessions
  unfolding deliver_data
  deliver_data-Elsewhere content e j other = elim (Option-cases (session_at server session ts)) [
    | inl gone ↦ ground (arith, gone, e)
    | inr (s, held) ↦ elim (Bool-cases s.closed) [
      | inl shut ↦ ground (arith, held, shut, e)
      | inr live ↦ elim (Option-cases (try_send s.ch (event_data content))) [
        | inl panics ↦ absurd (ground (arith, held, live, panics, e))
        | inr (r, sends) ↦
            let s' : TerminalSession = record s { ch = r.0 } in
            let same : with_session (make_key server session) s' ts ≡ ts' =
              ground (arith, held, live, sends, e) in
            rw (sym same) (assign-Elsewhere (make_key server session) s' ts.sessions j other)
      ]
    ]
  ]

  pub end-Elsewhere :
      (code : ℕ) (error : Bytes)
      → end server session code error ts ≡ some (ts', sent)
      → Elsewhere (make_key server session) ts.sessions ts'.sessions
  unfolding end
  end-Elsewhere code error e j other = elim (Option-cases (session_at server session ts)) [
    | inl gone ↦ ground (arith, gone, e)
    | inr (s, held) ↦ elim (Bool-cases s.closed) [
      | inl shut ↦ ground (arith, held, shut, e)
      | inr live ↦ elim (Option-cases (finish code error s)) [
        | inl panics ↦ absurd (ground (arith, held, live, panics, e))
        | inr (s', ended) ↦
            let same : with_session (make_key server session) s' ts ≡ ts' =
              ground (arith, held, live, ended, e) in
            rw (sym same) (assign-Elsewhere (make_key server session) s' ts.sessions j other)
      ]
    ]
  ]
