-- ===== src/Agent/Terminal/Ended.antt =====
-- After CloseAll no terminal runs, and none runs ever again.
use aerodocs.Agent.Terminal.{
  validate_open_slot, Phase, starting, running, shut, Session, Manager, new_manager, with_phase,
  close_session, begin_open, close, stop, close_each, handles_of, close_all,
}
use aerodocs.Agent.Terminal.Tracked.{IsValid}
use aerodocs.Agent.Terminal.Laws.{
  Event, begins, finishes, ends, closes, stops, closes_each, step, run, AllFresh, finish_open-cases,
  slot_room, new-IsValid, run-IsValid,
}
use mathlib.Core.Path.{subst}
use aerodocs.Base.{
  ◌≡◌, refl, sym, ap, ◌∙◌, ◌≢◌, inl, inr, true, false, Option, some, List, [], ◌∷◌, arith,
  Bool-cases, Option-cases, any, Bytes, text, text_eq, text_eq_refl, eq_of_text_eq, text_eq_iff,
  Table, lookup, delete, lookup-assign,
}

abbrev pub Runs : Bytes → Manager → Type 0
Runs h m = (s : Session) × ((lookup h m.started ≡ some s) × (s.phase ≡ running))

-- What still runs after a change of one session ran before, if the change does not start it.
changed_running :
    (h k : Bytes) (s : Session) (phase : Phase) (m : Manager) (sessions : Table Bytes)
    → phase ≢ running
    → Runs h (with_phase k s phase (record m { sessions = sessions }))
    → (text_eq h k ≡ false) × Runs h m
changed_running h k s phase m sessions quiet (t, (e, runs)) =
    let s' : Session = record s { phase = phase } in
    elim (Bool-cases (text_eq k h)) [
      | inl same ↦
          let is : s' ≡ t = ground (arith, lookup-assign k h s' m.started, same, e) in
          absurd (quiet (ap (λ x. x.phase) is ∙ runs))
      | inr other ↦
          let had : lookup h m.started ≡ some t =
            ground (arith, lookup-assign k h s' m.started, other, e) in
          (ground (arith, other, text_eq_iff k h, text_eq_iff h k), (t, (had, runs)))
    ]

-- A session that runs is none of which a handle is not known, or was closed.
not_that :
    (h k : Bytes) (m : Manager)
    → ((s : Session) → lookup k m.started ≡ some s → s.phase ≢ running)
    → Runs h m
    → text_eq h k ≡ false
not_that h k m idle (s, (e, runs)) = elim (Bool-cases (text_eq h k)) [
  | inr other ↦ other
  | inl same ↦ absurd (idle s (rw (sym (eq_of_text_eq h k same)) e) runs)
]

pub close_session-Runs :
    (k h : Bytes) (m : Manager) → Runs h (close_session k m) → (text_eq h k ≡ false) × Runs h m
unfolding close_session
close_session-Runs k h m runs = elim (Option-cases (lookup k m.started)) [
  | inl gone ↦
      let same : close_session k m ≡ m = rw (gone, close_session) refl in
      let before : Runs h m = subst (Runs h) same runs in
      (not_that h k m (λ s e r. absurd (ground (arith, gone, e))) before, before)
  | inr (s, held) ↦
      elim s.phase as (λ p. s.phase ≡ p → (text_eq h k ≡ false) × Runs h m) [
        | shut ↦ λ e.
            let same : close_session k m ≡ m = rw (held, e, close_session) refl in
            let before : Runs h m = subst (Runs h) same runs in
            (
              not_that h k m
                  (λ t e' r.
                    let is : s ≡ t = ground (arith, held, e') in
                    let bad : shut ≡ running = sym e ∙ (ap (λ x. x.phase) is ∙ r) in absurd (cc))
                  before,
              before,
            )
        | starting ↦ λ e.
            let closed : close_session k m
                ≡ with_phase k s shut (record m { sessions = delete s.id m.sessions }) =
              rw (held, e, close_session) refl in
            changed_running h k s shut m (delete s.id m.sessions) (λ q. cc)
              (subst (Runs h) closed runs)
        | running ↦ λ e.
            let closed : close_session k m
                ≡ with_phase k s shut (record m { sessions = delete s.id m.sessions }) =
              rw (held, e, close_session) refl in
            changed_running h k s shut m (delete s.id m.sessions) (λ q. cc)
              (subst (Runs h) closed runs)
      ]
        refl
]

close_each-Runs :
    (hs : List Bytes) (h : Bytes) (m : Manager)
    → Runs h (close_each hs m)
    → (any (text_eq h) hs ≡ false) × Runs h m
unfolding close_each
close_each-Runs [] h m runs = (refl, runs)
close_each-Runs (k ∷ hs) h m runs =
    let (out, mid) = close_each-Runs hs h (close_session k m) runs in
    let (other, before) = close_session-Runs k h m mid in (ground (arith, out, other), before)

handle_listed :
    (id h : Bytes) (m : Table Bytes) → lookup id m ≡ some h → any (text_eq h) (handles_of m) ≡ true
unfolding lookup
handle_listed id h [] e = cc
handle_listed id h ((j, k) ∷ m) e = ground (arith, e, handle_listed id h m, text_eq_refl h)

-- No terminal runs, and the manager is stopped.
pub record AllShut (m : Manager) : Type 0 where
  pub down : m.stopped ≡ true
  pub none_runs : (h : Bytes) (s : Session) → lookup h m.started ≡ some s → s.phase ≢ running

close_session-stopped : (k : Bytes) (m : Manager) → (close_session k m).stopped ≡ m.stopped
unfolding close_session
close_session-stopped k m = elim (Option-cases (lookup k m.started)) [
  | inl gone ↦ rw (gone, close_session) refl
  | inr (s, held) ↦
      elim s.phase as (λ p. s.phase ≡ p → (close_session k m).stopped ≡ m.stopped) [
        | shut ↦ λ e. rw (held, e, close_session) refl
        | starting ↦ λ e. rw (held, e, close_session) refl
        | running ↦ λ e. rw (held, e, close_session) refl
      ]
        refl
]

close_each-stopped : (hs : List Bytes) (m : Manager) → (close_each hs m).stopped ≡ m.stopped
unfolding close_each
close_each-stopped [] m = refl
close_each-stopped (k ∷ hs) m =
    close_each-stopped hs (close_session k m) ∙ close_session-stopped k m

close_session-AllShut : (k : Bytes) (m : Manager) → AllShut m → AllShut (close_session k m)
close_session-AllShut k m v = record {
  down = close_session-stopped k m ∙ v.down;
  none_runs = λ h s e r.
      let (other, (t, (had, runs))) = close_session-Runs k h m (s, (e, r)) in
      v.none_runs h t had runs;
}

close_each-AllShut : (hs : List Bytes) (m : Manager) → AllShut m → AllShut (close_each hs m)
unfolding close_each
close_each-AllShut [] m v = v
close_each-AllShut (k ∷ hs) m v =
    close_each-AllShut hs (close_session k m) (close_session-AllShut k m v)

close_all-AllShut : (m : Manager) → IsValid m → AllShut (close_all m)
unfolding close_all stop
close_all-AllShut m v = record {
  down = close_each-stopped (handles_of m.sessions) (stop m);
  none_runs = λ h s e r.
      let (out, (t, (had, runs))) =
        close_each-Runs (handles_of m.sessions) h (stop m) (s, (e, r)) in
      let listed = handle_listed t.id h m.sessions (v.tracked h t had runs) in
      absurd (ground (arith, out, listed));
}

close-AllShut : (id : Bytes) (m : Manager) → AllShut m → AllShut (close id m).0
unfolding close
close-AllShut id m v = elim (Option-cases (lookup id m.sessions)) [
  | inl gone ↦ rw (gone, close) v
  | inr (h, held) ↦ rw (held, close) (close_session-AllShut h m v)
]

begin_open-stopped :
    (id handle : Bytes) (error : Option Bytes) (m : Manager)
    → m.stopped ≡ true
    → (begin_open id handle error m).0 ≡ m
unfolding begin_open validate_open_slot
begin_open-stopped id handle error m down = elim (Bool-cases (text_eq id [])) [
  | inl unnamed ↦ rw (unnamed, begin_open) refl
  | inr named ↦
      let full : validate_open_slot id m ≡ some (text "terminal manager unavailable") =
        ground (arith, down) in
      rw (named, full, begin_open) refl
]

step-AllShut : (e : Event) (m : Manager) → AllShut m → AllShut (step e m)
unfolding step stop
step-AllShut (begins id handle error) m v = rw (begin_open-stopped id handle error m v.down) v
step-AllShut (finishes handle) m v = elim (finish_open-cases handle m) [
  | inl same ↦ rw same v
  | inr (inl closed) ↦ rw closed (close_session-AllShut handle m v)
  | inr (inr (s, (held, (slot, registered)))) ↦
      let up = (slot_room s.id m slot).0 in let down = v.down in absurd (cc)
]
step-AllShut (ends handle) m v = close_session-AllShut handle m v
step-AllShut (closes id) m v = close-AllShut id m v
step-AllShut stops m v = record { down = refl; none_runs = v.none_runs }
step-AllShut (closes_each handles) m v = close_each-AllShut handles m v

run-AllShut : (es : List Event) (m : Manager) → AllShut m → AllShut (run es m)
run-AllShut [] m v = v
run-AllShut (e ∷ es) m v = run-AllShut es (step e m) (step-AllShut e m v)

-- However opening, closing and the ends of processes interleave, if no id is used for two sessions: a
-- session that was registered and not closed is found under its id, and the manager's map has at most
-- eight. After CloseAll the manager stays stopped and no session is a registered one any more, whatever
-- is called then, also if its Open was begun before.
pub close_all-final :
    (before after : List Event)
    → AllFresh before new_manager
    → let m = run before new_manager in IsValid m × AllShut (run after (close_all m))
close_all-final before after new =
    let v = run-IsValid before new_manager new-IsValid new in
    (
      v,
      run-AllShut after (close_all (run before new_manager))
          (close_all-AllShut (run before new_manager) v),
    )
