-- ===== src/Grpc/Handler/Steps.antt =====
-- What a message of an agent changes.
use aerodocs.ConnMgr.{AgentConn, ConnManager, get_conn, update_heartbeat}
use aerodocs.Grpc.Key.{make_key}
use aerodocs.Grpc.Elsewhere.{Elsewhere, assign-Elsewhere}
use aerodocs.Grpc.Coalescer.{HeartbeatCoalescer, record_heartbeat, is_recent}
use aerodocs.Grpc.Pending.{PendingRequests}
use aerodocs.Grpc.Pending.Delivery.{IsOpen}
use aerodocs.Grpc.LogSessions.{LogSessions}
use aerodocs.Grpc.TerminalSessions.{TerminalSessions, deliver_data, end}
use aerodocs.Grpc.TerminalSessions.Laws.{delivers, ends, step, step-IsValid}
use aerodocs.Grpc.TerminalSessions.Delivery.{deliver_data-Elsewhere, end-Elsewhere}
use aerodocs.Store.Servers.{Server, note_last_seen}
use aerodocs.Store.Servers.Seen.{RowsSeen, RowsSeen-refl, note_last_seen-RowsSeen}
use aerodocs.Grpc.Handler.{AgentMessage, HubMessage, heartbeat_ack, Hub, Environment}
use aerodocs.Grpc.Handler.Registration.{send}
use aerodocs.Grpc.Handler.Route.{
  deliver_pending, deliver_log_chunk, deliver_terminal_data, deliver_terminal_exit,
  send_if_connected, handle_stream_heartbeat, handle_cert_renewal, proceed, renewal,
}
use aerodocs.Grpc.Pending.Delivery
use aerodocs.Grpc.LogSessions.Delivery as LogDelivery
use aerodocs.Grpc.TerminalSessions.Laws as TerminalLaws
use aerodocs.Base.{
  ℕ, ◌≡◌, refl, inl, inr, Bool, true, Option, some, List, arith, if◌then◌else◌, Bool-cases,
  Option-cases, Bytes, lookup, lookup-assign_self,
}
use aerodocs.Grpc.Handler.Reach.{IsValid, Away, KeepsStream, Confined}

send_if_connected-value :
    (server : Bytes) (stream : ℕ) (sends : Bool) (msg : HubMessage) (hub : Hub)
    → (log : List (ℕ × HubMessage)) × ((goes_on : Bool) × (send_if_connected server stream sends msg
            hub
          ≡ (record hub { sent = log }, goes_on)))
unfolding send_if_connected
send_if_connected-value server stream sends msg hub =
    elim (Option-cases (get_conn server hub.conn_mgr)) [
      | inl gone ↦ (hub.sent, (true, rw (gone, send_if_connected) refl))
      | inr (conn, here) ↦
          (send stream sends msg hub.sent, (sends, rw (here, send_if_connected) refl))
    ]

module _ (server : Bytes) (hub : Hub) (v : IsValid hub) where
  -- A step that does not panic.
  abbrev pub Routed : Option (Hub × Bool) → Type 0
  Routed result =
      (hub' : Hub) × ((goes_on : Bool) × ((result ≡ some (hub', goes_on))
          × (IsValid hub' × Confined server hub hub')))

  delivered :
      (p : PendingRequests AgentMessage) (ls : LogSessions) (ts : TerminalSessions)
      → IsValid (record hub { pending = p; log_sessions = ls; terminals = ts })
      → ((j : Bytes) → Away server j → lookup j p.channels ≡ lookup j hub.pending.channels)
      → ((j : Bytes) → Away server j → lookup j ls.channels ≡ lookup j hub.log_sessions.channels)
      → ((j : Bytes) → Away server j → lookup j ls.overflow ≡ lookup j hub.log_sessions.overflow)
      → ((j : Bytes) → Away server j → lookup j ts.sessions ≡ lookup j hub.terminals.sessions)
      → Routed (some (record hub { pending = p; log_sessions = ls; terminals = ts }, true))
  delivered p ls ts valid a b c d = (
    record hub { pending = p; log_sessions = ls; terminals = ts },
    (
      true,
      (
        refl,
        (
          valid,
          record {
            pending = a;
            log_channels = b;
            log_overflow = c;
            terminals = d;
            connections = λ j other. refl;
            own = λ conn here. (conn, (here, refl));
            heartbeats = λ j other. refl;
            servers = RowsSeen-refl server hub.servers;
            audit = refl;
          },
        ),
      ),
    ),
  )

  pub pending-Routed :
      (request : Bytes) (msg : AgentMessage)
      → Routed (proceed (deliver_pending server request msg hub))
  unfolding deliver_pending
  pending-Routed request msg =
      let (p, (sent, (e, (v', apart)))) =
        Delivery.deliver-Delivered server request msg hub.pending v.pending in
      rw e (
        delivered p hub.log_sessions hub.terminals
          (record { pending = v'; log_sessions = v.log_sessions; terminals = v.terminals })
          (λ j away. apart j (away request)) (λ j away. refl) (λ j away. refl) (λ j away. refl))

  pub log_chunk-Routed :
      (request chunk : Bytes) → Routed (proceed (deliver_log_chunk server request chunk hub))
  unfolding deliver_log_chunk
  log_chunk-Routed request chunk =
      let (ls, (sent, (e, (v', (apart, apart'))))) =
        LogDelivery.deliver-Delivered server request chunk hub.log_sessions v.log_sessions in
      rw e (
        delivered hub.pending ls hub.terminals
          (record { pending = v.pending; log_sessions = v'; terminals = v.terminals })
          (λ j away. refl) (λ j away. apart j (away request)) (λ j away. apart' j (away request))
          (λ j away. refl))

  with_terminals :
      (session : Bytes) (ts : TerminalSessions)
      → TerminalLaws.IsValid ts
      → Elsewhere (make_key server session) hub.terminals.sessions ts.sessions
      → Routed (some (record hub { terminals = ts }, true))
  with_terminals session ts v' apart =
      delivered hub.pending hub.log_sessions ts
        (record { pending = v.pending; log_sessions = v.log_sessions; terminals = v' })
        (λ j away. refl) (λ j away. refl) (λ j away. refl) (λ j away. apart j (away session))

  pub terminal_data-Routed :
      (session bytes : Bytes) → Routed (proceed (deliver_terminal_data server session bytes hub))
  unfolding deliver_terminal_data step
  terminal_data-Routed session bytes =
      elim (Option-cases (deliver_data server session bytes hub.terminals)) [
        | inl panics ↦
            let (ts, e, v') =
              step-IsValid hub.terminals (delivers server session bytes) v.terminals in
            absurd (ground (arith, panics, e))
        | inr (result, done) ↦
            let (ts, e, v') =
              step-IsValid hub.terminals (delivers server session bytes) v.terminals in
            let same : result.0 ≡ ts = ground (arith, done, e) in
            rw done (
              with_terminals session result.0 (rw same v')
                (deliver_data-Elsewhere server session hub.terminals result.0 result.1 bytes done))
      ]

  pub terminal_exit-Routed :
      (session : Bytes) (exit_code : ℕ) (error : Bytes)
      → Routed (proceed (deliver_terminal_exit server session exit_code error hub))
  unfolding deliver_terminal_exit step
  terminal_exit-Routed session exit_code error =
      elim (Option-cases (end server session exit_code error hub.terminals)) [
        | inl panics ↦
            let (ts, e, v') =
              step-IsValid hub.terminals (ends server session exit_code error) v.terminals in
            absurd (ground (arith, panics, e))
        | inr (result, done) ↦
            let (ts, e, v') =
              step-IsValid hub.terminals (ends server session exit_code error) v.terminals in
            let same : result.0 ≡ ts = ground (arith, done, e) in
            rw done (
              with_terminals session result.0 (rw same v')
                (end-Elsewhere server session hub.terminals result.0 result.1 exit_code error done))
      ]

  noted :
      (cm : ConnManager) (hc : HeartbeatCoalescer) (rows : List Server)
      (log : List (ℕ × HubMessage)) (goes_on : Bool)
      → Elsewhere server hub.conn_mgr.streams cm.streams
      → KeepsStream server hub.conn_mgr cm
      → Elsewhere server hub.hb_coalescer.last_written hc.last_written
      → RowsSeen server hub.servers rows
      → Routed (
          some
            (record hub { conn_mgr = cm; hb_coalescer = hc; servers = rows; sent = log }, goes_on))
  noted cm hc rows log goes_on a own b seen = (
    record hub { conn_mgr = cm; hb_coalescer = hc; servers = rows; sent = log },
    (
      goes_on,
      (
        refl,
        (
          record { pending = v.pending; log_sessions = v.log_sessions; terminals = v.terminals },
          record {
            pending = λ j away. refl;
            log_channels = λ j away. refl;
            log_overflow = λ j away. refl;
            terminals = λ j away. refl;
            connections = a;
            own = own;
            heartbeats = b;
            servers = seen;
            audit = refl;
          },
        ),
      ),
    ),
  )

  pub renewal-Routed :
      (env : Environment) (stream : ℕ) (sends : Bool) (csr : Bytes)
      → Routed (some (handle_cert_renewal env server stream sends csr hub, true))
  unfolding handle_cert_renewal
  renewal-Routed env stream sends csr =
      let (log, (goes_on, value)) =
        send_if_connected-value server stream sends (renewal env server csr) hub in
      rw (value, handle_cert_renewal)
        (noted hub.conn_mgr hub.hb_coalescer hub.servers log true (λ j other. refl)
          (λ conn here. (conn, (here, refl))) (λ j other. refl) (RowsSeen-refl server hub.servers))

  update_heartbeat-Elsewhere :
      (now : ℕ)
      → Elsewhere server hub.conn_mgr.streams (update_heartbeat server now hub.conn_mgr).streams
  unfolding update_heartbeat
  update_heartbeat-Elsewhere now = elim (Option-cases (lookup server hub.conn_mgr.streams)) [
    | inl gone ↦ rw (gone, update_heartbeat) (λ j other. refl)
    | inr (conn, here) ↦
        rw (here, update_heartbeat)
          (assign-Elsewhere server (record conn { last_seen = now }) hub.conn_mgr.streams)
  ]

  update_heartbeat-KeepsStream :
      (now : ℕ) → KeepsStream server hub.conn_mgr (update_heartbeat server now hub.conn_mgr)
  unfolding update_heartbeat
  update_heartbeat-KeepsStream now conn here =
      let conn' : AgentConn = record conn { last_seen = now } in
      (
        conn',
        (rw (here, update_heartbeat) (lookup-assign_self server conn' hub.conn_mgr.streams), refl),
      )

  record_heartbeat-Elsewhere :
      (now : ℕ)
      → Elsewhere server hub.hb_coalescer.last_written
          (record_heartbeat server now hub.hb_coalescer).0.last_written
  unfolding record_heartbeat
  record_heartbeat-Elsewhere now =
      let recent =
        is_recent (lookup server hub.hb_coalescer.last_written) now hub.hb_coalescer.interval in
      elim (Bool-cases recent) [
        | inl soon ↦ rw (soon, record_heartbeat) (λ j other. refl)
        | inr late ↦
            rw (late, record_heartbeat) (assign-Elsewhere server now hub.hb_coalescer.last_written)
      ]

  pub heartbeat-Routed :
      (env : Environment) (now stream : ℕ) (sends : Bool)
      → Routed (some (handle_stream_heartbeat env now server stream sends hub))
  unfolding handle_stream_heartbeat
  heartbeat-Routed env now stream sends =
      let cm = update_heartbeat server now hub.conn_mgr in
      let (hc, writes) = record_heartbeat server now hub.hb_coalescer in
      let time = env.format_time now in
      let rows = if writes then note_last_seen time server hub.servers else hub.servers in
      let seen : RowsSeen server hub.servers rows = elim (Bool-cases writes) [
        | inl yes_ ↦ rw yes_ (note_last_seen-RowsSeen time server hub.servers)
        | inr no_ ↦ rw no_ (RowsSeen-refl server hub.servers)
      ] in
      let (log, (goes_on, value)) =
        send_if_connected-value server stream sends heartbeat_ack
          (record hub { conn_mgr = cm; hb_coalescer = hc; servers = rows }) in
      rw (value, handle_stream_heartbeat)
        (noted cm hc rows log goes_on (update_heartbeat-Elsewhere now)
          (update_heartbeat-KeepsStream now) (record_heartbeat-Elsewhere now) seen)
