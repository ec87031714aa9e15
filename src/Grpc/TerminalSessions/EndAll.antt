-- ===== src/Grpc/TerminalSessions/EndAll.antt =====
-- `EndAll`: the sessions of one server end with its connection.
use aerodocs.Grpc.Key.{colon, make_key}
use aerodocs.Grpc.TerminalSessions.{
  TerminalSession, TerminalSessions, session_at, finish, of_server, end_each, end_all,
}
use aerodocs.Grpc.TerminalSessions.Exit.{IsSound, Finished, finish-Finished}
use aerodocs.Base.{
  ℕ, ◌≡◌, refl, sym, ◌∙◌, ◌⊎◌, inl, inr, true, false, not, ◌&&◌, ◌||◌, Option, none, some, [], ◌∷◌,
  arith, if◌then◌else◌, Bool-cases, Option-cases, ◌>>=◌, Bytes, text_eq, text_eq_refl,
  eq_of_text_eq, has_prefix, Lacks, Table, lookup, Entries,
}

-- `EndAll` on one entry of the map.
end_one : Bytes → ℕ → Bytes → Bytes → TerminalSession → Option TerminalSession
unfolding finish
end_one server exit_code error key s =
    if not (of_server server key) || s.closed then some s else finish exit_code error s

-- What `EndAll` makes of one session: ended if it is an open session of the server, else as before.
abbrev pub Ended : Bytes → ℕ → Bytes → Bytes → TerminalSession → TerminalSession → Type 0
Ended server exit_code error key s s' =
    ((of_server server key && not s.closed ≡ true) × Finished exit_code error s s')
    ⊎ ((of_server server key && not s.closed ≡ false) × (s' ≡ s))

end_one-Ended :
    (server : Bytes) (exit_code : ℕ) (error key : Bytes) (s : TerminalSession)
    → IsSound key s
    → (s' : TerminalSession) × (end_one server exit_code error key s ≡ some s')
      × Ended server exit_code error key s s'
      × IsSound key s'
unfolding end_one
end_one-Ended server exit_code error key s v =
    elim (Bool-cases (of_server server key && not s.closed)) [
      | inl ours ↦
          let (s', done, finished, sound) =
            finish-Finished key exit_code error s v (ground (arith, ours)) in
          (s', ground (arith, ours, done), inl (ours, finished), sound)
      | inr other ↦ (s, ground (arith, other), inr (other, refl), v)
    ]

end_each-cons :
    (server : Bytes) (exit_code : ℕ) (error key : Bytes) (s : TerminalSession)
    (m : Table TerminalSession)
    → end_each server exit_code error ((key, s) ∷ m) ≡ (
        end_each server exit_code error m >>= λ rest.
        end_one server exit_code error key s >>= λ s'. some ((key, s') ∷ rest))
unfolding end_each end_one
end_each-cons server exit_code error key s m = refl

-- The entries of a map after the loop of `EndAll`.
record EachEnded (server : Bytes) (exit_code : ℕ) (error : Bytes) (m m' : Table TerminalSession)
    : Type 0 where
  sound : Entries IsSound m'
  each :
      (key : Bytes) (s : TerminalSession)
      → lookup key m ≡ some s
      → (s' : TerminalSession) × (lookup key m' ≡ some s') × Ended server exit_code error key s s'
  absent : (key : Bytes) → lookup key m ≡ none → lookup key m' ≡ none

EachEnded-cons :
    (server : Bytes) (exit_code : ℕ) (error key : Bytes) (s s' : TerminalSession)
    (m m' : Table TerminalSession)
    → EachEnded server exit_code error m m'
    → IsSound key s'
    → Ended server exit_code error key s s'
    → EachEnded server exit_code error ((key, s) ∷ m) ((key, s') ∷ m')
unfolding lookup
EachEnded-cons server exit_code error key s s' m m' rest sound ended = record {
  sound = (sound, rest.sound);
  each = λ j t e. elim (Bool-cases (text_eq key j)) [
    | inl same ↦ (
      s',
      rw same refl,
      let t_is : s ≡ t = ground arith in rw (← t_is, ← eq_of_text_eq key j same) ended,
    )
    | inr other ↦ let (t', found, done) = rest.each j t (ground arith) in (t', rw other found, done)
  ];
  absent = λ j e. elim (Bool-cases (text_eq key j)) [
    | inl same ↦ ground (arith, same, e)
    | inr other ↦ rw other (rest.absent j (ground (arith, other, e)))
  ];
}

end_each-EachEnded :
    (server : Bytes) (exit_code : ℕ) (error : Bytes) (m : Table TerminalSession)
    → Entries IsSound m
    → (m' : Table TerminalSession) × (end_each server exit_code error m ≡ some m')
      × EachEnded server exit_code error m m'
unfolding end_each lookup
end_each-EachEnded server exit_code error [] v =
    ([], refl, record { sound = tt; each = λ key s e. absurd (cc); absent = λ key e. refl })
end_each-EachEnded server exit_code error ((key, s) ∷ m) v =
    let (m', ran, rest) = end_each-EachEnded server exit_code error m v.1 in
    let (s', done, ended, sound) = end_one-Ended server exit_code error key s v.0 in
    (
      (key, s') ∷ m',
      end_each-cons server exit_code error key s m ∙ rw (ran, done) refl,
      EachEnded-cons server exit_code error key s s' m m' rest sound ended,
    )

of_server-make_key :
    (s s' r : Bytes) → Lacks colon s → Lacks colon s' → of_server s (make_key s' r) ≡ text_eq s s'
unfolding make_key has_prefix text_eq
of_server-make_key [] [] r h h' = refl
of_server-make_key [] (y ∷ s') r h h' = ground (arith, h'.0)
of_server-make_key (x ∷ s) [] r h h' = ground (arith, h.0)
of_server-make_key (x ∷ s) (y ∷ s') r h h' = ground (arith, of_server-make_key s s' r h.1 h'.1)

-- When the connection of a server ends, each of its open sessions gets the exit event and is closed;
-- a closed session of that server, and every session of another server, stays as it was. (No server
-- id holds a colon.)
pub end_all-Ended :
    (server other session : Bytes) (exit_code : ℕ) (error : Bytes) (ts : TerminalSessions)
    (s : TerminalSession)
    → Lacks colon server
    → Lacks colon other
    → Entries IsSound ts.sessions
    → session_at other session ts ≡ some s
    → (ts' : TerminalSessions) × (s' : TerminalSession) × (end_all server exit_code error ts
        ≡ some ts')
      × (session_at other session ts' ≡ some s')
      × (((text_eq server other && not s.closed ≡ true) × Finished exit_code error s s')
          ⊎ ((text_eq server other && not s.closed ≡ false) × (s' ≡ s)))
unfolding end_all
end_all-Ended server other session exit_code error ts s h h' v held =
    let (m', ran, ended) = end_each-EachEnded server exit_code error ts.sessions v in
    let (s', found, done) = ended.each (make_key other session) s held in
    (
      record { sessions = m' },
      s',
      rw ran refl,
      found,
      rw (of_server-make_key server other session h h') at done,
    )

pub end_all-IsSound :
    (server : Bytes) (exit_code : ℕ) (error : Bytes) (ts : TerminalSessions)
    → Entries IsSound ts.sessions
    → (ts' : TerminalSessions) × (end_all server exit_code error ts ≡ some ts')
      × Entries IsSound ts'.sessions
unfolding end_all
end_all-IsSound server exit_code error ts v =
    let (m', ran, ended) = end_each-EachEnded server exit_code error ts.sessions v in
    (record { sessions = m' }, rw ran refl, ended.sound)

-- After `EndAll` every session of the server is closed.
pub end_all-Closed :
    (server : Bytes) (exit_code : ℕ) (error : Bytes) (ts : TerminalSessions)
    → Lacks colon server
    → Entries IsSound ts.sessions
    → (ts' : TerminalSessions) × ((end_all server exit_code error ts ≡ some ts')
        × (Entries IsSound ts'.sessions
            × ((session : Bytes) (s : TerminalSession)
                → session_at server session ts' ≡ some s
                → s.closed ≡ true)))
unfolding end_all
end_all-Closed server exit_code error ts h v =
    let (m', ran, ended) = end_each-EachEnded server exit_code error ts.sessions v in
    (
      record { sessions = m' },
      (
        rw ran refl,
        (
          ended.sound,
          λ session s now.
              let key = make_key server session in
              elim (Option-cases (lookup key ts.sessions)) [
                | inl gone ↦ absurd (ground (arith, ended.absent key gone, now))
                | inr (t, held) ↦
                    let (t', found, done) = ended.each key t held in
                    let same : t' ≡ s = ground (arith, found, now) in
                    rw (sym same) (elim done [
                      | inl (ours, finished) ↦ finished.shut
                      | inr (other, kept) ↦
                          let mine = of_server-make_key server server session h h in
                          rw kept (ground (arith, other, mine, text_eq_refl server))
                    ])
              ],
        ),
      ),
    )
