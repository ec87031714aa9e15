-- ===== src/Grpc/Handler/Reach.antt =====
-- How far the messages of one server reach.
use aerodocs.ConnMgr.{AgentConn, ConnManager}
use aerodocs.Grpc.Key.{make_key}
use aerodocs.Grpc.Elsewhere.{Elsewhere}
use aerodocs.Grpc.Pending.Delivery.{IsOpen}
use aerodocs.Store.Servers.Seen.{RowsSeen, RowsSeen-refl, RowsSeen-trans}
use aerodocs.Grpc.Handler.{Hub}
use aerodocs.Grpc.LogSessions.Laws
use aerodocs.Grpc.TerminalSessions.Laws as TerminalLaws
use aerodocs.Base.{◌≡◌, refl, ◌∙◌, false, some, Bytes, text_eq, lookup, Entries}

-- Every channel is as its component keeps it.
pub record IsValid (hub : Hub) : Type 0 where
  pub pending : Entries IsOpen hub.pending.channels
  pub log_sessions : Laws.IsValid hub.log_sessions
  pub terminals : TerminalLaws.IsValid hub.terminals

-- A key that is not one of a server's.
abbrev pub Away : Bytes → Bytes → Type 0
Away server j = (request : Bytes) → text_eq (make_key server request) j ≡ false

-- A server that has a connection keeps its stream.
abbrev pub KeepsStream : Bytes → ConnManager → ConnManager → Type 0
KeepsStream server cm cm' =
    (conn : AgentConn)
    → lookup server cm.streams ≡ some conn
    → (conn' : AgentConn) × ((lookup server cm'.streams ≡ some conn')
        × (conn'.stream ≡ conn.stream))

-- Nothing changes but what is kept for a server.
pub record Confined (server : Bytes) (hub hub' : Hub) : Type 0 where
  pub pending :
      (j : Bytes) → Away server j → lookup j hub'.pending.channels ≡ lookup j hub.pending.channels
  pub log_channels :
      (j : Bytes)
      → Away server j
      → lookup j hub'.log_sessions.channels ≡ lookup j hub.log_sessions.channels
  pub log_overflow :
      (j : Bytes)
      → Away server j
      → lookup j hub'.log_sessions.overflow ≡ lookup j hub.log_sessions.overflow
  pub terminals :
      (j : Bytes)
      → Away server j
      → lookup j hub'.terminals.sessions ≡ lookup j hub.terminals.sessions
  pub connections : Elsewhere server hub.conn_mgr.streams hub'.conn_mgr.streams
  pub own : KeepsStream server hub.conn_mgr hub'.conn_mgr
  pub heartbeats : Elsewhere server hub.hb_coalescer.last_written hub'.hb_coalescer.last_written
  -- The times of the server's own row may be new.
  pub servers : RowsSeen server hub.servers hub'.servers
  pub audit : hub'.audit ≡ hub.audit

pub Confined-refl : (server : Bytes) (hub : Hub) → Confined server hub hub
Confined-refl server hub = record {
  pending = λ j away. refl;
  log_channels = λ j away. refl;
  log_overflow = λ j away. refl;
  terminals = λ j away. refl;
  connections = λ j other. refl;
  own = λ conn here. (conn, (here, refl));
  heartbeats = λ j other. refl;
  servers = RowsSeen-refl server hub.servers;
  audit = refl;
}

pub Confined-trans :
    (server : Bytes) (a b c : Hub) → Confined server a b → Confined server b c → Confined server a c
Confined-trans server a b c p q = record {
  pending = λ j away. q.pending j away ∙ p.pending j away;
  log_channels = λ j away. q.log_channels j away ∙ p.log_channels j away;
  log_overflow = λ j away. q.log_overflow j away ∙ p.log_overflow j away;
  terminals = λ j away. q.terminals j away ∙ p.terminals j away;
  connections = λ j other. q.connections j other ∙ p.connections j other;
  own = λ conn here.
      let (conn', (there, e)) = p.own conn here in
      let (conn'', (there', e')) = q.own conn' there in (conn'', (there', e' ∙ e));
  heartbeats = λ j other. q.heartbeats j other ∙ p.heartbeats j other;
  servers = RowsSeen-trans server a.servers b.servers c.servers p.servers q.servers;
  audit = q.audit ∙ p.audit;
}
