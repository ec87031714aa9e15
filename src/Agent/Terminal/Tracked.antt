-- ===== src/Agent/Terminal/Tracked.antt =====
-- Every running session is in the manager's map, and the map has at most eight.
use aerodocs.Agent.Terminal.{Phase, running, shut, Session, Manager, with_phase}
use aerodocs.Base.{
  ◌≤◌, ◌<◌, ◌≡◌, refl, sym, ap, ◌∙◌, ◌⊎◌, inl, inr, false, some, arith, Bool-cases, length, Bytes,
  text_eq, eq_of_text_eq, text_eq_iff, Table, lookup, delete, assign, Distinct, lookup-delete,
  lookup-assign, lookup-assign_self, delete-Distinct, assign-Distinct, length-delete-le,
  length-assign-le,
}

-- The map and the sessions agree. No two sessions have the same id, as the hub's ids are unique.
pub record IsValid (m : Manager) : Type 0 where
  pub tracked :
      (h : Bytes) (s : Session)
      → lookup h m.started ≡ some s
      → s.phase ≡ running
      → lookup s.id m.sessions ≡ some h
  pub one_each :
      (h j : Bytes) (s t : Session)
      → lookup h m.started ≡ some s
      → lookup j m.started ≡ some t
      → s.id ≡ t.id
      → h ≡ j
  pub distinct : Distinct m.sessions
  pub bounded : length m.sessions ≤ 8

-- A session changes its phase, and at most its own entry of the map.
module _ (m : Manager) (v : IsValid m) (h : Bytes) (s : Session)
    (held : lookup h m.started ≡ some s) where
  -- What a session of the changed table was before.
  record Was (phase : Phase) (j : Bytes) (t : Session) : Type 0 where
    was : Session
    had : lookup j m.started ≡ some was
    same_id : was.id ≡ t.id
    which : ((h ≡ j) × ((t.phase ≡ phase) × (s.id ≡ t.id))) ⊎ ((text_eq h j ≡ false) × (was ≡ t))

  was :
      (phase : Phase) (j : Bytes) (t : Session)
      → lookup j (assign h (record s { phase = phase }) m.started) ≡ some t
      → Was phase j t
  was phase j t e =
      let s' : Session = record s { phase = phase } in
      elim (Bool-cases (text_eq h j)) [
        | inl same ↦
            let is : s' ≡ t = ground (arith, lookup-assign h j s' m.started, same, e) in
            let here : h ≡ j = eq_of_text_eq h j same in
            record {
              was = s;
              had = rw (sym here) held;
              same_id = ap (λ x. x.id) is;
              which = inl (here, (sym (ap (λ x. x.phase) is), ap (λ x. x.id) is));
            }
        | inr other ↦ record {
          was = t;
          had = ground (arith, lookup-assign h j s' m.started, other, e);
          same_id = refl;
          which = inr (other, refl);
        }
      ]

  apart_ids :
      (j : Bytes) (t : Session)
      → lookup j m.started ≡ some t
      → text_eq h j ≡ false
      → text_eq s.id t.id ≡ false
  apart_ids j t had other = elim (Bool-cases (text_eq s.id t.id)) [
    | inr apart ↦ apart
    | inl same ↦
        let e = v.one_each h j s t held had (eq_of_text_eq s.id t.id same) in
        absurd (ground (arith, other, text_eq_iff h j, e))
  ]

  pub changed :
      (phase : Phase) (sessions : Table Bytes)
      → ((j : Bytes) → text_eq s.id j ≡ false → lookup j sessions ≡ lookup j m.sessions)
      → (phase ≡ running → lookup s.id sessions ≡ some h)
      → Distinct sessions
      → length sessions ≤ 8
      → IsValid (with_phase h s phase (record m { sessions = sessions }))
  changed phase sessions apart own d b = record {
    tracked = λ j t e runs.
        let w = was phase j t e in
        elim w.which [
          | inl (here, (now, id)) ↦ rw (sym here, sym id) (own (sym now ∙ runs))
          | inr (other, is) ↦
              let had : lookup j m.started ≡ some t = w.had ∙ ap some is in
              apart t.id (apart_ids j t had other) ∙ v.tracked j t had runs
        ];
    one_each = λ i j t u e e' same.
        let w = was phase i t e in
        let w' = was phase j u e' in
        v.one_each i j w.was w'.was w.had w'.had (w.same_id ∙ same ∙ sym w'.same_id);
    distinct = d;
    bounded = b;
  }

  -- A session that is closed.
  pub shut-IsValid : IsValid (with_phase h s shut (record m { sessions = delete s.id m.sessions }))
  shut-IsValid =
      changed shut (delete s.id m.sessions)
        (λ j other. rw (lookup-delete s.id j m.sessions, other) refl) (λ e. absurd (cc))
        (delete-Distinct s.id m.sessions v.distinct)
        (omega (arith, length-delete-le s.id m.sessions, v.bounded))

  -- A session that is registered.
  pub running-IsValid :
      length m.sessions < 8
      → IsValid (with_phase h s running (record m { sessions = assign s.id h m.sessions }))
  running-IsValid room =
      changed running (assign s.id h m.sessions)
        (λ j other. rw (lookup-assign s.id j h m.sessions, other) refl)
        (λ e. lookup-assign_self s.id h m.sessions) (assign-Distinct s.id h m.sessions v.distinct)
        (omega (arith, length-assign-le s.id h m.sessions, room))
