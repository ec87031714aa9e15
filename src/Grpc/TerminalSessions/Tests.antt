-- ===== src/Grpc/TerminalSessions/Tests.antt =====
-- Runs of the terminal sessions.
use aerodocs.Grpc.Key.{make_key}
use aerodocs.Grpc.TerminalSessions.{
  TerminalSession, TerminalSessions, new_terminal_sessions, session_at, register, missing, busy,
  attach_stream, end, end_all, remove_unattached, info_of,
}
use aerodocs.Grpc.TerminalSessions.Exit.{Finished}
use aerodocs.Grpc.TerminalSessions.EndAll.{end_all-Ended}
use aerodocs.Grpc.TerminalSessions.Laws.{
  IsValid, Op, attaches, delivers, ends, removes, removes_unattached, ends_all, step, run,
  run_total,
}
use aerodocs.Grpc.TerminalSessions.Attach.{attach_stream-exclusive}
use aerodocs.Base.{
  ◌≡◌, refl, ◌⊎◌, true, false, not, ◌&&◌, some, List, [], ◌∷◌, arith, if◌then◌else◌, text, text_eq,
  lookup, assign,
}

abbrev opened : TerminalSessions
unfolding register new_terminal_sessions
opened = (register (text "a") (text "1") (text "ann") (text "ops") new_terminal_sessions).0

abbrev opened_session : TerminalSession
opened_session = record {
  user_id = text "ann";
  execution_user = text "ops";
  ch = record { buffer = []; cap = 256; closed = false };
  streaming = false;
  closed = false;
}

evaluation : Unit {0}
unfolding opened make_key lookup assign text_eq attach_stream run remove_unattached end end_all
evaluation = tt

opened-IsValid : IsValid opened
unfolding evaluation
opened-IsValid = (record { agree = refl; cap = refl; bounded = omega arith }, tt)

abbrev history : List Op
history =
    attaches (text "a") (text "1") (text "bob")
    ∷ delivers (text "a") (text "1") (text "x")
    ∷ ends (text "a") (text "1") 0 []
    ∷ ends_all (text "a") 1 (text "gone")
    ∷ removes (text "a") (text "1")
    ∷ removes (text "a") (text "1")
    ∷ []

run_total_example : (ts : TerminalSessions) × (run opened history ≡ some ts) × IsValid ts
run_total_example = run_total opened history opened-IsValid

end_all-Ended_example :
    (ts : TerminalSessions) × (s : TerminalSession) × (end_all (text "a") 1 (text "gone") opened
      ≡ some ts)
    × (session_at (text "a") (text "1") ts ≡ some s)
    × (((text_eq (text "a") (text "a") && not opened_session.closed ≡ true)
          × Finished 1 (text "gone") opened_session s)
        ⊎ ((text_eq (text "a") (text "a") && not opened_session.closed ≡ false)
            × (s ≡ opened_session)))
unfolding evaluation
end_all-Ended_example =
    end_all-Ended (text "a") (text "a") (text "1") 1 (text "gone") opened opened_session
      (omega arith) (omega arith) opened-IsValid refl

attached_state : TerminalSessions
unfolding opened attach_stream
attached_state = (attach_stream (text "a") (text "1") (text "ann") opened).0

abbrev after_attach : List Op
after_attach =
    attaches (text "a") (text "1") (text "ann") ∷ removes_unattached (text "a") (text "1") ∷ []

attach_stream-exclusive_example :
    (text "ann" ≡ text "ann")
    × (attach_stream (text "a") (text "1") (text "bob") attached_state
        ≡ (attached_state, if text_eq (text "ann") (text "bob") then busy else missing))
    × (remove_unattached (text "a") (text "1") attached_state ≡ some (attached_state, false))
unfolding evaluation attached_state step
attach_stream-exclusive_example =
    attach_stream-exclusive (text "a") (text "1") (text "ann") (text "bob") opened attached_state
      attached_state (info_of opened_session) after_attach refl (tt, (tt, tt)) refl
