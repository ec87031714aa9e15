-- ===== src/Grpc/Handler/Registration.antt =====
-- How an agent is registered, and how one that is registered comes back.
use aerodocs.Grpc.Coalescer.{force_write}
use aerodocs.Store.Servers.{
  Server, Activation, get_server_by_token, get_server_by_id, activate_server, update_server_status,
  update_server_ip, note_last_seen,
}
use aerodocs.Grpc.Handler.{
  RegisterAgent, AgentMessage, registers, heartbeat, HubMessage, register_ack, register_error,
  heartbeat_ack, registered, registration_failed, Hub, Environment, Peer, no_peer, no_certificate,
  certificate, Code, invalid_argument, unauthenticated, not_found, internal,
}
use aerodocs.Base.{
  ℕ, Bool, true, false, not, Option, none, some, List, [], ◌∷◌, ◌++◌, ltb, ◌==◌, if◌then◌else◌,
  Result, returns, raises, length, Bytes, text, text_eq,
}

-- The error, if there is one.
unfoldable pub verify_cert_cn : Environment → Peer → Bytes → Bool → Option Bytes
verify_cert_cn env no_peer server require_cert =
    if require_cert then some (text "missing peer info for authenticated reconnect") else none
verify_cert_cn env no_certificate server require_cert =
    if require_cert
    then some (text "agent " ++ server ++ text " connected without required client certificate")
    else none
verify_cert_cn env (certificate cn) server require_cert =
    if not (text_eq cn server)
    then some
        (text "cert CN " ++ env.quote cn ++ text " does not match server ID " ++ env.quote server)
    else none

abbrev pub preferred_agent_ip : Environment → Bytes → Bytes → Bytes
preferred_agent_ip env reported_ip peer_ip = if env.is_ip reported_ip then reported_ip else peer_ip

abbrev pub optional_string_pointer : Bytes → Option Bytes
optional_string_pointer value = if text_eq value [] then none else some value

-- A part of the detail, if its value is there.
abbrev pub detail_part : Bytes → Bytes → Bytes
detail_part name value = if text_eq value [] then [] else text " " ++ name ++ value

unfoldable pub registration_audit_detail : RegisterAgent → Bytes → Bytes
registration_audit_detail reg failure =
    text "phase=bootstrap method=registration_token"
    ++ detail_part (text "hostname=") reg.hostname
    ++ detail_part (text "os=") reg.os
    ++ detail_part (text "agent_version=") reg.agent_version
    ++ (if text_eq failure []
        then text " result=accepted"
        else text " result=failed reason=" ++ failure)

-- The client's certificate and the hub's.
unfoldable pub issue_registration_certificate : Environment → Bytes → Bytes → Result (Bytes × Bytes)
issue_registration_certificate env server csr =
    if length csr == 0 then raises (text "registration CSR required") else elim env.ca_cert [
      | none ↦ raises (text "CA not configured")
      | some ca_cert ↦ elim (env.sign_csr csr server) [
        | raises error ↦ raises (text "sign client certificate: " ++ error)
        | returns client_cert ↦ returns (client_cert, ca_cert)
      ]
    ]

abbrev pub is_expired : Environment → ℕ → Option Bytes → Bool
is_expired env now none = false
is_expired env now (some expires_at) = elim (env.parse_time expires_at) [
  | none ↦ false
  | some at ↦ ltb at now
]

-- The rows, and the server's id with its certificate and the hub's, or the error.
unfoldable pub activate :
    Environment
    → ℕ
    → Activation
    → Bytes
    → Server
    → List Server
    → List Server × Result (Bytes × (Bytes × Bytes))
activate env now a csr srv rows = elim (issue_registration_certificate env srv.id csr) [
  | raises error ↦ (rows, raises error)
  | returns certs ↦ elim (activate_server (env.format_time now) srv.id a rows) [
    | none ↦ (rows, raises (text "failed to activate server: server not found"))
    | some rows' ↦ (rows', returns (srv.id, certs))
  ]
]

-- One step, though the code reads and activates the row in two statements.
unfoldable pub handle_register :
    Environment
    → ℕ
    → RegisterAgent
    → Bytes
    → List Server
    → List Server × Result (Bytes × (Bytes × Bytes))
unfolding activate
handle_register env now reg agent_ip rows =
    elim (get_server_by_token (env.hash_token reg.token) rows) [
      | none ↦ (rows, raises (text "invalid or expired registration token"))
      | some srv ↦
          let a : Activation = record {
            hostname = reg.hostname;
            ip = agent_ip;
            os = reg.os;
            agent_version = reg.agent_version;
          } in
          if is_expired env now srv.token_expires_at
          then (rows, raises (text "registration token expired"))
          else activate env now a reg.csr srv rows
    ]

-- What a handshake leads to.
pub data Handshake : Type 0 where
  refused : Code → Bytes → Handshake
  bootstrap : Bytes → Handshake
  accepted : Bytes → Handshake

-- A message on a stream, if the send succeeds.
abbrev pub send : ℕ → Bool → HubMessage → List (ℕ × HubMessage) → List (ℕ × HubMessage)
send stream true msg sent = (stream, msg) ∷ sent
send stream false msg sent = sent

-- A stream, with its peer, the peer's address, the time of its first message and whether the hub can
-- answer it.
pub record Stream : Type 0 where
  pub stream : ℕ
  pub peer : Peer
  pub peer_ip : Bytes
  pub now : ℕ
  pub sends : Bool

unfoldable pub perform_register_handshake :
    Environment → Stream → RegisterAgent → Hub → Hub × Handshake
perform_register_handshake env st reg hub =
    let (rows, result) =
      handle_register env st.now reg (preferred_agent_ip env reg.ip_address st.peer_ip)
        hub.servers in
    elim result [
      | raises error ↦ (
        record hub {
          servers = rows;
          sent = send st.stream st.sends (register_error error) hub.sent;
          audit =
              registration_failed (registration_audit_detail reg error)
                (optional_string_pointer st.peer_ip)
              ∷ hub.audit;
        },
        refused unauthenticated (text "registration failed: " ++ error),
      )
      | returns (server, (client_cert, ca_cert)) ↦ (
        record hub {
          servers = rows;
          sent = send st.stream st.sends (register_ack server client_cert ca_cert) hub.sent;
          audit =
              registered server (registration_audit_detail reg [])
                (optional_string_pointer st.peer_ip)
              ∷ hub.audit;
        },
        if st.sends
            then bootstrap server
            else refused internal (text "failed to send register ack"),
      )
    ]

-- The handshake's heartbeat: the error, if there is one.
unfoldable pub handle_heartbeat : Environment → ℕ → Bytes → Hub → Hub × Option Bytes
handle_heartbeat env now server hub = elim (get_server_by_id server hub.servers) [
  | none ↦ (hub, some (text "unknown server: " ++ server))
  | some srv ↦
      let status =
        if text_eq srv.status (text "online")
        then some hub.servers
        else update_server_status (env.format_time now) server (text "online") hub.servers in
      elim status [
        | none ↦ (hub, some (text "failed to update status: server not found"))
        | some rows ↦ (
          record hub {
            servers = note_last_seen (env.format_time now) server rows;
            hb_coalescer = force_write server now hub.hb_coalescer;
          },
          none,
        )
      ]
]

-- The address that a heartbeat reports, if there is one.
abbrev pub with_ip : Environment → Stream → Bytes → Bytes → List Server → List Server
with_ip env st server ip rows =
    if text_eq ip [] then rows else update_server_ip (env.format_time st.now) server ip rows

unfoldable pub perform_heartbeat_handshake :
    Environment → Stream → Bytes → Bytes → Hub → Hub × Handshake
unfolding handle_heartbeat
perform_heartbeat_handshake env st server ip hub = elim (verify_cert_cn env st.peer server true) [
  | some error ↦ (hub, refused unauthenticated (text "heartbeat authentication failed: " ++ error))
  | none ↦
      let (hub', failed) = handle_heartbeat env st.now server hub in
      elim failed [
        | some error ↦ (hub', refused not_found (text "heartbeat failed: " ++ error))
        | none ↦
            if not st.sends
            then (hub', refused internal (text "failed to send heartbeat ack"))
            else (
              record hub' {
                servers = with_ip env st server (preferred_agent_ip env ip st.peer_ip) hub'.servers;
                sent = (st.stream, heartbeat_ack) ∷ hub'.sent;
              },
              accepted server,
            )
      ]
]

-- The first message is none if it is not received.
unfoldable pub perform_handshake :
    Environment → Stream → Option AgentMessage → Hub → Hub × Handshake
unfolding perform_register_handshake perform_heartbeat_handshake
perform_handshake env st none hub =
    (hub, refused invalid_argument (text "failed to receive first message"))
perform_handshake env st (some (registers reg)) hub = perform_register_handshake env st reg hub
perform_handshake env st (some (heartbeat server ip)) hub =
    perform_heartbeat_handshake env st server ip hub
perform_handshake env st (some _) hub =
    (hub, refused invalid_argument (text "first message must be Register or Heartbeat"))
