-- ===== src/Grpc/Handler/Connection.antt =====
-- Which streams become connections.
use aerodocs.ConnMgr.{register}
use aerodocs.Grpc.Handler.{
  RegisterAgent, AgentMessage, registers, heartbeat, HubMessage, Audit, Hub, Environment, Peer,
  no_peer, no_certificate, certificate, Code,
}
use aerodocs.Grpc.Handler.Registration.{
  verify_cert_cn, handle_register, Handshake, refused, bootstrap, accepted, preferred_agent_ip,
  Stream, perform_register_handshake, handle_heartbeat, perform_heartbeat_handshake,
  perform_handshake,
}
use aerodocs.Grpc.Handler.Route.{begin_connect}
use aerodocs.Store.Servers.{Server, get_server_by_id, update_server_status}
use aerodocs.Base.{
  ℕ, ◌≡◌, refl, ap, ◌⊎◌, inl, inr, true, false, Option, none, some, List, arith, if◌then◌else◌,
  Bool-cases, Option-cases, Result, returns, raises, Bytes, text, text_eq, text_eq_refl,
  text_eq_iff,
}

-- What agents and browsers wait on is as it was.
pub record Kept (hub hub' : Hub) : Type 0 where
  pub pending : hub'.pending ≡ hub.pending
  pub log_sessions : hub'.log_sessions ≡ hub.log_sessions
  pub terminals : hub'.terminals ≡ hub.terminals
  pub conn_mgr : hub'.conn_mgr ≡ hub.conn_mgr

-- The peer is the server that it says it is, and the store knows it.
pub record Authentic (env : Environment) (st : Stream) (first : Option AgentMessage) (hub : Hub)
    (server : Bytes) : Type 0 where
  pub peer : st.peer ≡ certificate server
  pub row : Server
  pub known : get_server_by_id server hub.servers ≡ some row
  pub ip : Bytes
  pub asked : first ≡ some (heartbeat server ip)

Result-cases {ℓ} :
    {A : Type ℓ} (r : Result A)
    → ((error : Bytes) × (r ≡ raises error)) ⊎ ((a : A) × (r ≡ returns a))
Result-cases (raises error) = inl (error, refl)
Result-cases (returns a) = inr (a, refl)

same : (hub : Hub) → Kept hub hub
same hub = record { pending = refl; log_sessions = refl; terminals = refl; conn_mgr = refl }

unmoved :
    (hub : Hub) (rows : List Server) (log : List (ℕ × HubMessage)) (audit : List Audit)
    → Kept hub (record hub { servers = rows; sent = log; audit = audit })
unmoved hub rows log audit = record {
  pending = refl;
  log_sessions = refl;
  terminals = refl;
  conn_mgr = refl;
}

-- The ways a handshake ends.
abbrev Ends : Environment → Stream → Option AgentMessage → Hub → Hub × Handshake → Type 0
Ends env st first hub out =
    Kept hub out.0
    × (((code : Code) × ((error : Bytes) × (out.1 ≡ refused code error)))
        ⊎ (((server : Bytes) × (out.1 ≡ bootstrap server))
            ⊎ ((server : Bytes) × ((out.1 ≡ accepted server) × Authentic env st first hub server))))

register-Ends :
    (env : Environment) (st : Stream) (reg : RegisterAgent) (hub : Hub)
    → Ends env st (some (registers reg)) hub (perform_register_handshake env st reg hub)
unfolding perform_register_handshake
register-Ends env st reg hub =
    let agent_ip = preferred_agent_ip env reg.ip_address st.peer_ip in
    let out = handle_register env st.now reg agent_ip hub.servers in
    elim (Result-cases out.1) [
      | inl (error, e) ↦ rw (e, perform_register_handshake) (unmoved hub _ _ _, inl (_, (_, refl)))
      | inr (cert, e) ↦ elim (Bool-cases st.sends) [
        | inl sends ↦
            rw (e, sends, perform_register_handshake) (unmoved hub _ _ _, inr (inl (_, refl)))
        | inr fails ↦
            rw (e, fails, perform_register_handshake) (unmoved hub _ _ _, inl (_, (_, refl)))
      ]
    ]

certified :
    (env : Environment) (peer : Peer) (server : Bytes)
    → verify_cert_cn env peer server true ≡ none
    → peer ≡ certificate server
unfolding verify_cert_cn
certified env no_peer server e = cc
certified env no_certificate server e = cc
certified env (certificate cn) server e = ground (arith, text_eq_iff cn server, e)

-- The heartbeat of a handshake, which fails or knows the server.
heard :
    (env : Environment) (now : ℕ) (server : Bytes) (hub : Hub)
    → Kept hub (handle_heartbeat env now server hub).0
      × (((error : Bytes) × ((handle_heartbeat env now server hub).1 ≡ some error))
          ⊎ (((handle_heartbeat env now server hub).1 ≡ none)
              × ((srv : Server) × (get_server_by_id server hub.servers ≡ some srv))))
unfolding handle_heartbeat
heard env now server hub = elim (Option-cases (get_server_by_id server hub.servers)) [
  | inl gone ↦ rw (gone, handle_heartbeat) (same hub, inl (_, refl))
  | inr (srv, known) ↦
      let online = update_server_status (env.format_time now) server (text "online") hub.servers in
      elim (Option-cases
        (if text_eq srv.status (text "online") then some hub.servers else online)) [
          | inl lost ↦ rw (known, lost, handle_heartbeat) (same hub, inl (_, refl))
          | inr (rows, found) ↦
              rw (known, found, handle_heartbeat)
                (
                  record { pending = refl; log_sessions = refl; terminals = refl; conn_mgr = refl },
                  inr (refl, (srv, refl)),
                )
        ]
]

heartbeat-Ends :
    (env : Environment) (st : Stream) (server ip : Bytes) (hub : Hub)
    → Ends env st
        (some (heartbeat server ip))
        hub
        (perform_heartbeat_handshake env st server ip hub)
unfolding perform_heartbeat_handshake
heartbeat-Ends env st server ip hub = elim (Option-cases (verify_cert_cn env st.peer server true)) [
  | inr (error, bad) ↦ rw (bad, perform_heartbeat_handshake) (same hub, inl (_, (_, refl)))
  | inl fine ↦
      let (kept, result) = heard env st.now server hub in
      elim result [
        | inl (error, e) ↦ rw (fine, e, perform_heartbeat_handshake) (kept, inl (_, (_, refl)))
        | inr (e, (srv, known)) ↦ elim (Bool-cases st.sends) [
          | inr off ↦ rw (fine, e, off, perform_heartbeat_handshake) (kept, inl (_, (_, refl)))
          | inl sends ↦
              rw (fine, e, sends, perform_heartbeat_handshake)
                (
                  record {
                    pending = kept.pending;
                    log_sessions = kept.log_sessions;
                    terminals = kept.terminals;
                    conn_mgr = kept.conn_mgr;
                  },
                  inr (
                      inr (
                        server,
                        (
                          refl,
                          record {
                            peer = certified env st.peer server fine;
                            row = srv;
                            known = known;
                            ip = ip;
                            asked = refl;
                          },
                        ),
                      )),
                )
        ]
      ]
]

handshake-Ends :
    (env : Environment) (st : Stream) (first : Option AgentMessage) (hub : Hub)
    → Ends env st first hub (perform_handshake env st first hub)
unfolding perform_handshake
handshake-Ends env st none hub = (same hub, inl (_, (_, refl)))
handshake-Ends env st (some (registers reg)) hub = register-Ends env st reg hub
handshake-Ends env st (some (heartbeat server ip)) hub = heartbeat-Ends env st server ip hub
handshake-Ends env st (some _) hub = (same hub, inl (_, (_, refl)))

-- The state of the channels after the beginning of `Connect`.
pub record Untouched (hub hub' : Hub) : Type 0 where
  pub pending : hub'.pending ≡ hub.pending
  pub log_sessions : hub'.log_sessions ≡ hub.log_sessions
  pub terminals : hub'.terminals ≡ hub.terminals

certificate_fine :
    (env : Environment) (peer : Peer) (server : Bytes)
    → peer ≡ certificate server
    → verify_cert_cn env peer server false ≡ none
unfolding verify_cert_cn
certificate_fine env peer server e = rw (e, text_eq_refl server) refl

-- Before its loop, `Connect` touches no pending request, log stream or terminal. It ends without a
-- new connection; or it registers the stream for a server, and then the stream's first message was a
-- heartbeat of that server, its peer has a client certificate whose common name is the server's id,
-- and the database has that server.
pub begin_connect-Authentic :
    (env : Environment) (st : Stream) (first : Option AgentMessage) (hub : Hub)
    → let out = begin_connect env st first hub in
      Untouched hub out.0
      × (((out.1 ≡ none) × (out.0.conn_mgr ≡ hub.conn_mgr))
          ⊎ ((server : Bytes) × ((out.1 ≡ some server)
                × (Authentic env st first hub server
                    × (out.0.conn_mgr ≡ register server st.stream st.now hub.conn_mgr)))))
unfolding begin_connect
begin_connect-Authentic env st first hub =
    let (kept, result) = handshake-Ends env st first hub in
    let untouched : Untouched hub (perform_handshake env st first hub).0 = record {
      pending = kept.pending;
      log_sessions = kept.log_sessions;
      terminals = kept.terminals;
    } in
    elim result [
      | inl (code, (error, e)) ↦ rw (e, begin_connect) (untouched, inl (refl, kept.conn_mgr))
      | inr (inl (server, e)) ↦ rw (e, begin_connect) (untouched, inl (refl, kept.conn_mgr))
      | inr (inr (server, (e, authentic))) ↦
          rw (e, certificate_fine env st.peer server authentic.peer, begin_connect)
            (
              record {
                pending = kept.pending;
                log_sessions = kept.log_sessions;
                terminals = kept.terminals;
              },
              inr (
                server,
                (refl, (authentic, ap (register server st.stream st.now) kept.conn_mgr)),
              ),
            )
    ]
