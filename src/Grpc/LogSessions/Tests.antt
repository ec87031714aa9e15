-- ===== src/Grpc/LogSessions/Tests.antt =====
-- Runs of the log sessions.
use aerodocs.Grpc.LogSessions.{LogSessions, new_log_sessions, register}
use aerodocs.Grpc.LogSessions.Laws.{Op, registers, removes, delivers}
use aerodocs.Grpc.LogSessions.Accounting.{
  Event, reads, drains, Tally, Balanced, run-register-Balanced,
}
use aerodocs.Grpc.LogSessions.Accounting
use aerodocs.Base.{◌≡◌, some, List, [], ◌∷◌, arith, text}

abbrev twice_registered : List Op
twice_registered =
    registers (text "a") (text "1")
    ∷ delivers (text "a") (text "1") (text "x")
    ∷ registers (text "a") (text "1")
    ∷ removes (text "a") (text "1")
    ∷ removes (text "a") (text "1")
    ∷ delivers (text "a") (text "1") (text "y")
    ∷ []

abbrev events : List Event
events = Event.delivers (text "x") ∷ Event.delivers (text "y") ∷ reads ∷ drains ∷ []

run-register-Balanced_example :
    (s : LogSessions × Tally) × (Accounting.run
        (text "a")
        (text "1")
        (
          register (text "a") (text "1") new_log_sessions,
          record { sent = 0; accepted = []; received = []; reported = 0 },
        )
        events
      ≡ some s)
    × Balanced (text "a") (text "1") s
run-register-Balanced_example =
    run-register-Balanced (text "a") (text "1") new_log_sessions events (omega arith)
