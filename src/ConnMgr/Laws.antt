-- ===== src/ConnMgr/Laws.antt =====
-- Reconnects and stale connections.
use aerodocs.ConnMgr.{
  AgentConn, ConnManager, register, unregister_if_current, get_conn, keys_of, update_heartbeat,
  is_stale, stale_connections,
}
use aerodocs.Base.{
  ℕ, ◌+◌, ◌<◌, ◌≡◌, refl, sym, ◌∙◌, ◌≢◌, ◌↔◌, inl, inr, Bool, true, false, none, some, [], ◌∷◌,
  arith, if◌then◌else◌, Bool-cases, keep, any, Bytes, text_eq, text_eq_refl, eq_of_text_eq, Table,
  lookup, assign, Distinct, lookup-delete, lookup-assign, lookup-assign_self,
}

-- The connection that a heartbeat at `t₃` finds after a registration.
update_heartbeat-register :
    (server : Bytes) (new t₂ t₃ : ℕ) (cm : ConnManager)
    → update_heartbeat server t₃ (register server new t₂ cm) ≡ record {
      streams =
          assign server
            (record { server_id = server; stream = new; last_seen = t₃ })
            (register server new t₂ cm).streams;
    }
unfolding register update_heartbeat
update_heartbeat-register server new t₂ t₃ cm =
    rw
      (
        lookup-assign_self server (record { server_id = server; stream = new; last_seen = t₂ })
            cm.streams,
        update_heartbeat,
      )
      refl

get_conn-register :
    (server other : Bytes) (stream now : ℕ) (cm : ConnManager)
    → get_conn other (register server stream now cm) ≡ (
        if text_eq server other
        then some (record { server_id = server; stream = stream; last_seen = now })
        else get_conn other cm)
unfolding register get_conn
get_conn-register server other stream now cm = lookup-assign server other _ cm.streams

-- `UnregisterIfCurrent` on a server that has a connection.
unregister_if_current-held :
    (server other : Bytes) (stream : ℕ) (conn : AgentConn) (cm : ConnManager)
    → get_conn server cm ≡ some conn
    → (conn.stream ≢ stream → unregister_if_current server stream cm ≡ (cm, false))
      × (conn.stream ≡ stream
          → ((unregister_if_current server stream cm).1 ≡ true)
            × (get_conn other (unregister_if_current server stream cm).0
                ≡ (if text_eq server other then none else get_conn other cm)))
unfolding unregister_if_current get_conn
unregister_if_current-held server other stream conn cm held = (
  λ apart. ground (arith, held, apart),
  λ same. ground (arith, held, same, lookup-delete server other cm.streams),
)

-- When an agent reconnects before its old stream has ended, the end of the old stream leaves the new
-- connection alone, also after a heartbeat; the end of the new stream removes that connection and
-- leaves those of other servers as they were.
pub unregister_if_current-register :
    (server other : Bytes) (old new t₁ t₂ t₃ : ℕ) (cm : ConnManager)
    → old ≢ new
    → text_eq server other ≡ false
    → let cm' = update_heartbeat server t₃ (register server new t₂ (register server old t₁ cm)) in
      (unregister_if_current server old cm' ≡ (cm', false))
      × (get_conn server cm' ≡ some (record { server_id = server; stream = new; last_seen = t₃ }))
      × ((unregister_if_current server new cm').1 ≡ true)
      × (get_conn server (unregister_if_current server new cm').0 ≡ none)
      × (get_conn other (unregister_if_current server new cm').0 ≡ get_conn other cm)
unfolding register get_conn
unregister_if_current-register server other old new t₁ t₂ t₃ cm apart ne =
    let cm₁ : ConnManager = register server new t₂ (register server old t₁ cm) in
    let conn : AgentConn = record { server_id = server; stream = new; last_seen = t₃ } in
    let cm' : ConnManager = record { streams = assign server conn cm₁.streams } in
    let held : get_conn server cm' ≡ some conn = lookup-assign_self server conn cm₁.streams in
    let self = unregister_if_current-held server server new conn cm' held in
    let others = unregister_if_current-held server other new conn cm' held in
    rw (update_heartbeat-register server new t₂ t₃ (register server old t₁ cm)) (
      (unregister_if_current-held server server old conn cm' held).0 (λ e. apart (sym e)),
      held,
      (self.1 refl).0,
      (self.1 refl).1 ∙ rw (text_eq_refl server) refl,
      (others.1 refl).1
          ∙ rw ne (
              lookup-assign server other conn cm₁.streams
              ∙ rw ne (
                  get_conn-register server other new t₂ (register server old t₁ cm)
                  ∙ rw ne (get_conn-register server other old t₁ cm ∙ rw ne refl))),
    )

-- Of the keys of a map, those that pass a test are kept.
keys-keep :
    (server : Bytes) (p : AgentConn → Bool) (m : Table AgentConn)
    → Distinct m
    → (any (λ k. text_eq k server) (keys_of (keep (λ e. p e.1) m)) ≡ true)
      ↔ ((conn : AgentConn) × (lookup server m ≡ some conn) × (p conn ≡ true))
unfolding lookup
keys-keep server p [] d = (λ h. absurd (cc), λ q. absurd (ground (arith, q)))
keys-keep server p ((k, c) ∷ m) d =
    let (to, from) = keys-keep server p m d.1 in
    elim (Bool-cases (text_eq k server)) [
      | inr there ↦ elim (Bool-cases (p c)) [
        | inl passes ↦ (
          λ h. let q = to (rw (passes, there) at h) in (q.0, rw there q.1, q.2),
          λ q. rw (passes, there) (from (q.0, rw there at q.1, q.2)),
        )
        | inr fails ↦ (
          λ h. let q = to (rw fails at h) in (q.0, rw there q.1, q.2),
          λ q. rw fails (from (q.0, rw there at q.1, q.2)),
        )
      ]
      | inl here ↦
          let gone : lookup server m ≡ none = rw (← eq_of_text_eq k server here) d.0 in
          elim (Bool-cases (p c)) [
            | inl passes ↦ (λ h. (c, rw here refl, passes), λ q. rw (passes, here) refl)
            | inr fails ↦ (
              λ h. let q = to (rw fails at h) in absurd (ground (arith, gone, q.1)),
              λ q. absurd (ground (arith, here, fails, q.1, q.2)),
            )
          ]
    ]

-- The monitor's list of stale connections holds a server exactly when its connection was last seen
-- more than the maximal age ago.
pub stale_connections_iff :
    (server : Bytes) (max_age now : ℕ) (cm : ConnManager)
    → Distinct cm.streams
    → (any (λ k. text_eq k server) (stale_connections max_age now cm) ≡ true)
      ↔ ((conn : AgentConn) × (get_conn server cm ≡ some conn) × (conn.last_seen + max_age < now))
unfolding stale_connections get_conn
stale_connections_iff server max_age now cm d =
    let (to, from) = keys-keep server (is_stale max_age now) cm.streams d in
    (
      λ h. let q = to h in (q.0, q.1, ground (arith, q.2)),
      λ q. from (q.0, q.1, ground (arith, q.2)),
    )
