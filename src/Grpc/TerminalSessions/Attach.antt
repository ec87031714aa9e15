-- ===== src/Grpc/TerminalSessions/Attach.antt =====
-- A terminal's stream has one reader, its owner, from the time it is attached until it is removed.
use aerodocs.Grpc.Key.{make_key}
use aerodocs.Grpc.TerminalSessions.{
  TerminalSession, TerminalSessionInfo, TerminalSessions, session_at, missing, busy, attached,
  attach_stream, remove_unattached,
}
use aerodocs.Grpc.TerminalSessions.Laws.{
  Op, registers, attaches, delivers, ends, hub_removes, removes_unattached, removes, reads,
  ends_all, step, run,
}
use aerodocs.Base.{
  ◌≡◌, inl, inr, true, false, some, List, [], ◌∷◌, arith, if◌then◌else◌, Option-cases, All, Bytes,
  text_eq, text_eq_iff, lookup, lookup-assign_self,
}
use aerodocs.Grpc.TerminalSessions.Reader.{
  reader, Spares, Keeps, register-reader, attach-reader, deliver-reader, read-reader, end-reader,
  hub_remove-reader, remove-reader, remove_unattached-reader, end_all-reader,
}

module _ (k u : Bytes) (ts : TerminalSessions) (has : reader (lookup k ts.sessions) ≡ some u) where
  step-reader : (o : Op) → Spares k o → Keeps k u ts has (step ts o)
  unfolding step
  step-reader (registers s r user run_as) spared = register-reader k u ts has s r user run_as
  step-reader (attaches s r user) spared = attach-reader k u ts has s r user
  step-reader (delivers s r bytes) spared = deliver-reader k u ts has s r bytes
  step-reader (ends s r code error) spared = end-reader k u ts has s r code error
  step-reader (hub_removes s r) spared = hub_remove-reader k u ts has s r spared
  step-reader (removes_unattached s r) spared = remove_unattached-reader k u ts has s r
  step-reader (removes s r) spared = remove-reader k u ts has s r spared
  step-reader (reads s r) spared = read-reader k u ts has s r
  step-reader (ends_all s code error) spared = end_all-reader k u ts has s code error

attached-reader :
    (server session user : Bytes) (ts ts' : TerminalSessions) (info : TerminalSessionInfo)
    → attach_stream server session user ts ≡ (ts', attached info)
    → (info.user_id ≡ user) × (reader (lookup (make_key server session) ts'.sessions) ≡ some user)
unfolding attach_stream
attached-reader server session user ts ts' info ok =
    elim (Option-cases (session_at server session ts)) [
      | inl gone ↦ absurd (ground (arith, ok, gone))
      | inr (t, held) ↦
          let streamed : TerminalSession = record t { streaming = true } in
          ground (
            arith,
            ok,
            held,
            text_eq_iff t.user_id user,
            lookup-assign_self (make_key server session) streamed ts.sessions,
          )
    ]

run-reader :
    (k u : Bytes) (os : List Op) (ts ts' : TerminalSessions)
    → reader (lookup k ts.sessions) ≡ some u
    → All (Spares k) os
    → run ts os ≡ some ts'
    → reader (lookup k ts'.sessions) ≡ some u
unfolding run
run-reader k u [] ts ts' has spared ran = let same : ts ≡ ts' = cc in rw (← same) has
run-reader k u (o ∷ os) ts ts' has spared ran = elim (Option-cases (step ts o)) [
  | inl panic ↦ absurd (ground (arith, ran, panic))
  | inr (ts₁, stepped) ↦
      let kept : Keeps k u ts has (some ts₁) =
        (rw stepped at (step-reader k u ts has o spared.0)) in
      run-reader k u os ts₁ ts' kept spared.1 (rw stepped at ran)
]

-- After an attach that succeeded, and until the hub removes the session, the stream has its reader:
-- whatever else happens, a further attach is refused (as busy to the owner, as missing to anybody
-- else) and the expiry of unattached sessions leaves the session alone. Only the user who opened the
-- session can have attached to it.
pub attach_stream-exclusive :
    (server session user other : Bytes) (ts ts₁ ts₂ : TerminalSessions) (info : TerminalSessionInfo)
    (os : List Op)
    → attach_stream server session user ts ≡ (ts₁, attached info)
    → All (Spares (make_key server session)) os
    → run ts₁ os ≡ some ts₂
    → (info.user_id ≡ user)
      × (attach_stream server session other ts₂
          ≡ (ts₂, if text_eq user other then busy else missing))
      × (remove_unattached server session ts₂ ≡ some (ts₂, false))
unfolding attach_stream remove_unattached
attach_stream-exclusive server session user other ts ts₁ ts₂ info os ok spared ran =
    let (owner, has₁) = attached-reader server session user ts ts₁ info ok in
    let has₂ = run-reader (make_key server session) user os ts₁ ts₂ has₁ spared ran in
    elim (Option-cases (session_at server session ts₂)) [
      | inl gone ↦ absurd (ground (arith, has₂, gone))
      | inr (t, held) ↦ (owner, ground (arith, held, has₂), ground (arith, held, has₂))
    ]
