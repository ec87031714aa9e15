-- ===== src/Grpc/Handler/Ended.antt =====
-- `Connect` from its beginning to its end.
use aerodocs.ConnMgr.{AgentConn, ConnManager, register, get_conn, unregister_if_current}
use aerodocs.Grpc.Key.{colon}
use aerodocs.Grpc.TerminalSessions.{TerminalSession, session_at}
use aerodocs.Grpc.Coalescer.{flush}
use aerodocs.Grpc.TerminalSessions.EndAll.{end_all-Closed}
use aerodocs.Grpc.Handler.{AgentMessage, disconnected, Hub, Environment}
use aerodocs.Grpc.Handler.Registration.{Stream}
use aerodocs.Grpc.Handler.Route.{
  minus_one, take_offline, on_agent_disconnected, begin_connect, Received, connect,
}
use aerodocs.Grpc.Handler.Reach.{IsValid}
use aerodocs.Grpc.Handler.Confined.{receive_all-Confined}
use aerodocs.Grpc.Handler.Connection.{Untouched, Authentic, begin_connect-Authentic}
use aerodocs.Store.Servers.{update_server_status, or_same, note_last_seen}
use aerodocs.Base.{
  ℕ, ◌≡◌, refl, inl, inr, true, Option, none, some, List, ◌∷◌, arith, Bytes, text, Lacks, lookup,
  delete, lookup-delete_self, lookup-assign_self,
}

-- A server that is taken out of the hub.
pub record Gone (server : Bytes) (hub : Hub) : Type 0 where
  pub connection : get_conn server hub.conn_mgr ≡ none
  pub heartbeats : lookup server hub.hb_coalescer.last_written ≡ none
  pub terminals :
      (session : Bytes) (s : TerminalSession)
      → session_at server session hub.terminals ≡ some s
      → s.closed ≡ true

unregistered :
    (server : Bytes) (stream : ℕ) (conn : AgentConn) (cm : ConnManager)
    → lookup server cm.streams ≡ some conn
    → conn.stream ≡ stream
    → unregister_if_current server stream cm ≡ (record { streams = delete server cm.streams }, true)
unfolding unregister_if_current
unregistered server stream conn cm held e = ground (arith, held, e)

disconnected-Gone :
    (env : Environment) (now : ℕ) (server : Bytes) (stream : ℕ) (conn : AgentConn) (hub : Hub)
    → Lacks colon server
    → IsValid hub
    → lookup server hub.conn_mgr.streams ≡ some conn
    → conn.stream ≡ stream
    → (hub' : Hub) × ((on_agent_disconnected env now server stream hub ≡ some hub')
        × (IsValid hub' × Gone server hub'))
unfolding on_agent_disconnected take_offline get_conn flush
disconnected-Gone env now server stream conn hub h v held e =
    let cm : ConnManager = record { streams = delete server hub.conn_mgr.streams } in
    let gone = unregistered server stream conn hub.conn_mgr held e in
    let (ts, (ran, (sound, shut))) =
      end_all-Closed server minus_one (text "agent disconnected") hub.terminals h v.terminals in
    let hub' : Hub = record hub {
      conn_mgr = cm;
      hb_coalescer = flush server now hub.hb_coalescer;
      servers =
          let seen = note_last_seen (env.format_time now) server hub.servers in
          or_same seen (update_server_status (env.format_time now) server (text "offline") seen);
      audit = disconnected server ∷ hub.audit;
      terminals = ts;
    } in
    (
      hub',
      (
        rw (gone, ran, on_agent_disconnected, take_offline) refl,
        (
          record { pending = v.pending; log_sessions = v.log_sessions; terminals = sound },
          record {
            connection = lookup-delete_self server hub.conn_mgr.streams;
            heartbeats = lookup-delete_self server hub.hb_coalescer.last_written;
            terminals = shut;
          },
        ),
      ),
    )

-- What a run of `Connect` on a valid hub comes to.
pub data Outcome (env : Environment) (st : Stream) (first : Option AgentMessage) (hub hub' : Hub)
    : Type 0 where
  turned_away : Untouched hub hub' → hub'.conn_mgr ≡ hub.conn_mgr → Outcome env st first hub hub'
  served :
      (server : Bytes)
      → Authentic env st first hub server
      → Gone server hub'
      → Outcome env st first hub hub'

-- Whatever an agent sends on a stream that nothing else interrupts, `Connect` comes to an end without
-- a panic and leaves every channel as its component keeps it. It turns the stream away, and then it
-- touched neither the connections nor anything that agents or browsers wait on; or the stream was an
-- authentic one of a server, and then at the end that server has no connection, no heartbeat that is
-- held back, and no open terminal. (No server id holds a colon.)
pub connect-Outcome :
    (env : Environment) (st : Stream) (first : Option AgentMessage) (rs : List Received)
    (ends_at : ℕ) (hub : Hub)
    → IsValid hub
    → ((server : Bytes) → Authentic env st first hub server → Lacks colon server)
    → (hub' : Hub) × ((connect env st first rs ends_at hub ≡ some hub')
        × (IsValid hub' × Outcome env st first hub hub'))
unfolding connect register
connect-Outcome env st first rs ends_at hub v plain =
    let begun = (begin_connect env st first hub).0 in
    let (kept, result) = begin_connect-Authentic env st first hub in
    let v1 : IsValid begun = record {
      pending = rw kept.pending v.pending;
      log_sessions = rw kept.log_sessions v.log_sessions;
      terminals = rw kept.terminals v.terminals;
    } in
    elim result [
      | inl (none_here, same) ↦ (begun, (rw (none_here, connect) refl, (v1, turned_away kept same)))
      | inr (server, (here, (authentic, registered))) ↦
          let conn : AgentConn = record {
            server_id = server;
            stream = st.stream;
            last_seen = st.now;
          } in
          let held : lookup server begun.conn_mgr.streams ≡ some conn =
            rw registered (lookup-assign_self server conn hub.conn_mgr.streams) in
          let (after, (ran, (v2, confined))) =
            receive_all-Confined env server st.stream rs begun v1 in
          let (conn', (held', e)) = confined.own conn held in
          let (hub', (ended, (v3, gone))) =
            disconnected-Gone env ends_at server st.stream conn' after (plain server authentic) v2
              held' e in
          (hub', (rw (here, ran, connect) ended, (v3, served server authentic gone)))
    ]
