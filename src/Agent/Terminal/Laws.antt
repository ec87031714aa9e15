-- ===== src/Agent/Terminal/Laws.antt =====
-- The agent's terminals in any order of calls, and the end of them all.
use aerodocs.Agent.Terminal.{
  starting, running, shut, Session, Manager, new_manager, validate_open_slot, register, with_phase,
  close_session, begin_open, finish_open, close, stop, close_each,
}
use aerodocs.Agent.Terminal.Tracked.{IsValid, shut-IsValid, running-IsValid}
use aerodocs.Base.{
  ◌<◌, ◌≡◌, refl, sym, ap, ◌∙◌, ◌≢◌, ◌⊎◌, inl, inr, false, Option, none, some, List, [], ◌∷◌, arith,
  Bool-cases, Option-cases, length, Bytes, text_eq, eq_of_text_eq, lookup, assign, lookup-assign,
}

-- A step of the manager: Open in two, with the id, the new handle and an error of what is between; the end
-- of a session by its handle, or by its id; the two parts of CloseAll.
pub data Event : Type 0 where
  begins : Bytes → Bytes → Option Bytes → Event
  finishes ends closes : Bytes → Event
  stops : Event
  closes_each : List Bytes → Event

unfoldable pub step : Event → Manager → Manager
step (begins id handle error) m = (begin_open id handle error m).0
step (finishes handle) m = (finish_open handle m).0
step (ends handle) m = close_session handle m
step (closes id) m = (close id m).0
step stops m = stop m
step (closes_each handles) m = close_each handles m

abbrev pub run : List Event → Manager → Manager
run [] m = m
run (e ∷ es) m = run es (step e m)

-- A new session has a new handle, and an id that no session had.
abbrev pub Fresh : Event → Manager → Type 0
Fresh (begins id handle error) m =
    (lookup handle m.started ≡ none)
    × ((j : Bytes) (s : Session) → lookup j m.started ≡ some s → s.id ≢ id)
Fresh _ m = Unit

abbrev pub AllFresh : List Event → Manager → Type 0
AllFresh [] m = Unit
AllFresh (e ∷ es) m = Fresh e m × AllFresh es (step e m)

close_session-IsValid :
    (handle : Bytes) (m : Manager) → IsValid m → IsValid (close_session handle m)
unfolding close_session
close_session-IsValid handle m v = elim (Option-cases (lookup handle m.started)) [
  | inl gone ↦ rw (gone, close_session) v
  | inr (s, held) ↦
      elim s.phase as (λ p. s.phase ≡ p → IsValid (close_session handle m)) [
        | shut ↦ λ e. rw (held, e, close_session) v
        | starting ↦ λ e. rw (held, e, close_session) (shut-IsValid m v handle s held)
        | running ↦ λ e. rw (held, e, close_session) (shut-IsValid m v handle s held)
      ]
        refl
]

close_each-IsValid :
    (handles : List Bytes) (m : Manager) → IsValid m → IsValid (close_each handles m)
unfolding close_each
close_each-IsValid [] m v = v
close_each-IsValid (h ∷ hs) m v =
    close_each-IsValid hs (close_session h m) (close_session-IsValid h m v)

begun-IsValid :
    (id handle : Bytes) (m : Manager)
    → IsValid m
    → lookup handle m.started ≡ none
    → ((j : Bytes) (s : Session) → lookup j m.started ≡ some s → s.id ≢ id)
    → IsValid
        (record m { started = assign handle (record { id = id; phase = starting }) m.started })
begun-IsValid id handle m v fresh new =
    let s' : Session = record { id = id; phase = starting } in
    let old : (j : Bytes) (t : Session)
        → lookup j (assign handle s' m.started) ≡ some t
        → ((handle ≡ j) × (s' ≡ t)) ⊎ (lookup j m.started ≡ some t) =
      λ j t e. elim (Bool-cases (text_eq handle j)) [
        | inl same ↦ inl (
          eq_of_text_eq handle j same,
          ground (arith, lookup-assign handle j s' m.started, same, e),
        )
        | inr other ↦ inr (ground (arith, lookup-assign handle j s' m.started, other, e))
      ] in
    record {
      tracked = λ j t e runs. elim (old j t e) [
        | inl (here, is) ↦ let bad : starting ≡ running = ap (λ x. x.phase) is ∙ runs in absurd (cc)
        | inr had ↦ v.tracked j t had runs
      ];
      one_each = λ i j t u e e' same. elim (old i t e) [
        | inl (here, is) ↦ elim (old j u e') [
          | inl (here', is') ↦ sym here ∙ here'
          | inr had' ↦ absurd (new j u had' (sym same ∙ sym (ap (λ x. x.id) is)))
        ]
        | inr had ↦ elim (old j u e') [
          | inl (here', is') ↦ absurd (new i t had (same ∙ sym (ap (λ x. x.id) is')))
          | inr had' ↦ v.one_each i j t u had had' same
        ]
      ];
      distinct = v.distinct;
      bounded = v.bounded;
    }

begin_open-IsValid :
    (id handle : Bytes) (error : Option Bytes) (m : Manager)
    → IsValid m
    → Fresh (begins id handle error) m
    → IsValid (begin_open id handle error m).0
unfolding begin_open
begin_open-IsValid id handle error m v new = elim (Bool-cases (text_eq id [])) [
  | inl unnamed ↦ rw (unnamed, begin_open) v
  | inr named ↦ elim (Option-cases (validate_open_slot id m)) [
    | inr (e, full) ↦ rw (named, full, begin_open) v
    | inl slot ↦ elim (Option-cases error) [
      | inr (e, failed) ↦ rw (named, slot, failed, begin_open) v
      | inl fine ↦ rw (named, slot, fine, begin_open) (begun-IsValid id handle m v new.0 new.1)
    ]
  ]
]

pub slot_room :
    (id : Bytes) (m : Manager)
    → validate_open_slot id m ≡ none
    → (m.stopped ≡ false) × (length m.sessions < 8)
unfolding validate_open_slot
slot_room id m e = elim (Bool-cases m.stopped) [
  | inl down ↦ absurd (ground (arith, down, e))
  | inr up ↦ elim (Option-cases (lookup id m.sessions)) [
    | inr (h, taken) ↦ absurd (ground (arith, up, taken, e))
    | inl free ↦ (up, ground (arith, up, free, e))
  ]
]

register-value :
    (id handle : Bytes) (m : Manager) (slot : Option Bytes)
    → validate_open_slot id m ≡ slot
    → register id handle m ≡ (elim slot [
      | none ↦ (record m { sessions = assign id handle m.sessions }, none)
      | some e ↦ (m, some e)
    ])
unfolding register
register-value id handle m none e = rw (e, register) refl
register-value id handle m (some error) e = rw (e, register) refl

-- What is left of Open once its process has started.
abbrev pub Finishes : Bytes → Manager → Type 0
Finishes handle m =
    ((finish_open handle m).0 ≡ m)
    ⊎ (((finish_open handle m).0 ≡ close_session handle m)
        ⊎ ((s : Session) × ((lookup handle m.started ≡ some s)
              × ((validate_open_slot s.id m ≡ none)
                  × ((finish_open handle m).0
                      ≡ with_phase handle s running
                          (record m { sessions = assign s.id handle m.sessions }))))))

pub finish_open-cases : (handle : Bytes) (m : Manager) → Finishes handle m
unfolding finish_open
finish_open-cases handle m = elim (Option-cases (lookup handle m.started)) [
  | inl gone ↦ inl (rw (gone, finish_open) refl)
  | inr (s, held) ↦
      elim s.phase as (λ p. s.phase ≡ p → Finishes handle m) [
        | shut ↦ λ e. inl (rw (held, e, finish_open) refl)
        | running ↦ λ e. inl (rw (held, e, finish_open) refl)
        | starting ↦ λ e. elim (Option-cases (validate_open_slot s.id m)) [
          | inr (error, full) ↦
              let value = register-value s.id handle m (some error) full in
              inr
                (inl (rw (held, e, value, finish_open) (ap (λ r. close_session handle r.0) value)))
          | inl slot ↦
              let value = register-value s.id handle m none slot in
              inr (
                inr (
                  s,
                  (
                    held,
                    (
                      slot,
                      rw (held, e, value, finish_open)
                          (ap (λ r. with_phase handle s running r.0) value),
                    ),
                  ),
                ))
        ]
      ]
        refl
]

finish_open-IsValid : (handle : Bytes) (m : Manager) → IsValid m → IsValid (finish_open handle m).0
finish_open-IsValid handle m v = elim (finish_open-cases handle m) [
  | inl same ↦ rw same v
  | inr (inl closed) ↦ rw closed (close_session-IsValid handle m v)
  | inr (inr (s, (held, (slot, registered)))) ↦
      rw registered (running-IsValid m v handle s held (slot_room s.id m slot).1)
]

close-IsValid : (id : Bytes) (m : Manager) → IsValid m → IsValid (close id m).0
unfolding close
close-IsValid id m v = elim (Option-cases (lookup id m.sessions)) [
  | inl gone ↦ rw (gone, close) v
  | inr (h, held) ↦ rw (held, close) (close_session-IsValid h m v)
]

stop-IsValid : (m : Manager) → IsValid m → IsValid (stop m)
unfolding stop
stop-IsValid m v = record {
  tracked = v.tracked;
  one_each = v.one_each;
  distinct = v.distinct;
  bounded = v.bounded;
}

pub step-IsValid : (e : Event) (m : Manager) → IsValid m → Fresh e m → IsValid (step e m)
unfolding step
step-IsValid (begins id handle error) m v new = begin_open-IsValid id handle error m v new
step-IsValid (finishes handle) m v new = finish_open-IsValid handle m v
step-IsValid (ends handle) m v new = close_session-IsValid handle m v
step-IsValid (closes id) m v new = close-IsValid id m v
step-IsValid stops m v new = stop-IsValid m v
step-IsValid (closes_each handles) m v new = close_each-IsValid handles m v

pub new-IsValid : IsValid new_manager
unfolding new_manager lookup
new-IsValid = record {
  tracked = λ h s e r. cc;
  one_each = λ h j s t e e' i. cc;
  distinct = tt;
  bounded = omega arith;
}

pub run-IsValid : (es : List Event) (m : Manager) → IsValid m → AllFresh es m → IsValid (run es m)
run-IsValid [] m v new = v
run-IsValid (e ∷ es) m v new = run-IsValid es (step e m) (step-IsValid e m v new.0) new.1
