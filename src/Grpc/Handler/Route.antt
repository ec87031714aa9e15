-- ===== src/Grpc/Handler/Route.antt =====
-- The messages of a stream after its handshake, its end, and the whole of `Connect`.
use aerodocs.ConnMgr.{register, unregister_if_current, get_conn, update_heartbeat}
use aerodocs.Grpc.Coalescer.{record_heartbeat, flush}
use aerodocs.Grpc.Handler.{
  AgentMessage, heartbeat, file_list_response, file_read_response, log_stream_chunk,
  file_upload_ack, file_delete_response, unregister_ack, cert_renew_request, terminal_open_ack,
  terminal_data, terminal_exit, HubMessage, heartbeat_ack, cert_renew_response, cert_renew_error,
  connected, disconnected, Hub, Environment,
}
use aerodocs.Grpc.Handler.Registration.{
  verify_cert_cn, refused, bootstrap, accepted, send, Stream, perform_handshake,
}
use aerodocs.Store.Servers.{Server, get_server_by_id, update_server_status, or_same, note_last_seen}
use aerodocs.Grpc.Pending
use aerodocs.Grpc.LogSessions
use aerodocs.Grpc.TerminalSessions
use aerodocs.Base.{
  ℕ, Bool, true, false, not, Option, none, some, List, [], ◌∷◌, if◌then◌else◌, returns, raises,
  ◌>>=◌, Bytes, text, text_eq,
}

unfoldable pub deliver_pending : Bytes → Bytes → AgentMessage → Hub → Option Hub
deliver_pending server request msg hub =
    Pending.deliver server request msg hub.pending >>= λ result.
    some (record hub { pending = result.0 })

unfoldable pub deliver_log_chunk : Bytes → Bytes → Bytes → Hub → Option Hub
deliver_log_chunk server request chunk hub =
    LogSessions.deliver server request chunk hub.log_sessions >>= λ result.
    some (record hub { log_sessions = result.0 })

unfoldable pub deliver_terminal_data : Bytes → Bytes → Bytes → Hub → Option Hub
deliver_terminal_data server session bytes hub =
    TerminalSessions.deliver_data server session bytes hub.terminals >>= λ result.
    some (record hub { terminals = result.0 })

unfoldable pub deliver_terminal_exit : Bytes → Bytes → ℕ → Bytes → Hub → Option Hub
deliver_terminal_exit server session exit_code error hub =
    TerminalSessions.end server session exit_code error hub.terminals >>= λ result.
    some (record hub { terminals = result.0 })

-- A message on the stream, if the server has a connection, and whether there was no error.
unfoldable pub send_if_connected : Bytes → ℕ → Bool → HubMessage → Hub → Hub × Bool
send_if_connected server stream sends msg hub = elim (get_conn server hub.conn_mgr) [
  | none ↦ (hub, true)
  | some conn ↦ (record hub { sent = send stream sends msg hub.sent }, sends)
]

-- The coalescer decides whether the row is written.
unfoldable pub handle_stream_heartbeat : Environment → ℕ → Bytes → ℕ → Bool → Hub → Hub × Bool
unfolding send_if_connected
handle_stream_heartbeat env now server stream sends hub =
    let (hb_coalescer, writes) = record_heartbeat server now hub.hb_coalescer in
    send_if_connected server stream sends heartbeat_ack (record hub {
      conn_mgr = update_heartbeat server now hub.conn_mgr;
      hb_coalescer = hb_coalescer;
      servers =
          if writes then note_last_seen (env.format_time now) server hub.servers else hub.servers;
    })

abbrev pub renewal : Environment → Bytes → Bytes → HubMessage
renewal env server csr = elim env.ca_cert [
  | none ↦ cert_renew_error (text "CA not configured")
  | some ca_cert ↦ elim (env.sign_csr csr server) [
    | raises error ↦ cert_renew_error error
    | returns client_cert ↦ cert_renew_response client_cert ca_cert
  ]
]

unfoldable pub handle_cert_renewal : Environment → Bytes → ℕ → Bool → Bytes → Hub → Hub
unfolding send_if_connected
handle_cert_renewal env server stream sends csr hub =
    (send_if_connected server stream sends (renewal env server csr) hub).0

abbrev pub proceed : Option Hub → Option (Hub × Bool)
proceed result = result >>= λ hub. some (hub, true)

-- The hub after a message, and whether the stream goes on.
unfoldable pub route_agent_message :
    Environment → ℕ → Bytes → ℕ → Bool → AgentMessage → Hub → Option (Hub × Bool)
route_agent_message env now server stream sends (heartbeat id ip) hub =
    some (handle_stream_heartbeat env now server stream sends hub)
route_agent_message env now server stream sends (file_list_response r) hub =
    proceed (deliver_pending server r.request_id (file_list_response r) hub)
route_agent_message env now server stream sends (file_read_response r) hub =
    proceed (deliver_pending server r.request_id (file_read_response r) hub)
route_agent_message env now server stream sends (log_stream_chunk request chunk) hub =
    proceed (deliver_log_chunk server request chunk hub)
route_agent_message env now server stream sends (file_upload_ack r) hub =
    proceed (deliver_pending server r.request_id (file_upload_ack r) hub)
route_agent_message env now server stream sends (file_delete_response r) hub =
    proceed (deliver_pending server r.request_id (file_delete_response r) hub)
route_agent_message env now server stream sends (unregister_ack request success) hub =
    proceed (deliver_pending server request (unregister_ack request success) hub)
route_agent_message env now server stream sends (cert_renew_request csr) hub =
    some (handle_cert_renewal env server stream sends csr hub, true)
route_agent_message env now server stream sends (terminal_open_ack session success error) hub =
    proceed (deliver_pending server session (terminal_open_ack session success error) hub)
route_agent_message env now server stream sends (terminal_data session bytes) hub =
    proceed (deliver_terminal_data server session bytes hub)
route_agent_message env now server stream sends (terminal_exit session exit_code error) hub =
    proceed (deliver_terminal_exit server session exit_code error hub)
route_agent_message env now server stream sends _ hub = some (hub, true)

-- -1 as an int32.
abbrev pub minus_one : ℕ
minus_one = 4294967295

-- The effects of a disconnection, once the connection was taken out.
unfoldable pub take_offline : Environment → ℕ → Bytes → Hub → Option Hub
take_offline env now server hub =
    TerminalSessions.end_all server minus_one (text "agent disconnected") hub.terminals
    >>= λ terminals. some (record hub {
      hb_coalescer = flush server now hub.hb_coalescer;
      servers =
          let seen = note_last_seen (env.format_time now) server hub.servers in
          or_same seen (update_server_status (env.format_time now) server (text "offline") seen);
      audit = disconnected server ∷ hub.audit;
      terminals = terminals;
    })

unfoldable pub on_agent_disconnected : Environment → ℕ → Bytes → ℕ → Hub → Option Hub
unfolding take_offline
on_agent_disconnected env now server stream hub =
    let (conn_mgr, current) = unregister_if_current server stream hub.conn_mgr in
    if not current
    then some hub
    else take_offline env now server (record hub { conn_mgr = conn_mgr })

-- The stored address of a server, or the peer's.
abbrev pub known_ip : Bytes → Option Server → Bytes
known_ip peer_ip none = peer_ip
known_ip peer_ip (some srv) = elim srv.ip_address [
  | none ↦ peer_ip
  | some ip ↦ if text_eq ip [] then peer_ip else ip
]

-- `Connect` up to its loop: the server's id if the loop is reached.
unfoldable pub begin_connect : Environment → Stream → Option AgentMessage → Hub → Hub × Option Bytes
begin_connect env st first hub =
    let (hub', handshake) = perform_handshake env st first hub in
    elim handshake [
      | refused code error ↦ (hub', none)
      | bootstrap server ↦ (hub', none)
      | accepted server ↦ elim (verify_cert_cn env st.peer server false) [
        | some error ↦ (hub', none)
        | none ↦ (
          record hub' {
            conn_mgr = register server st.stream st.now hub'.conn_mgr;
            audit =
                connected server (known_ip st.peer_ip (get_server_by_id server hub'.servers))
                ∷ hub'.audit;
          },
          some server,
        )
      ]
    ]

-- A message that is received, at a time, with the success of a send that answers it.
pub record Received : Type 0 where
  pub now : ℕ
  pub sends : Bool
  pub message : AgentMessage

-- The loop of `Connect`, until the stream ends, by `EOF` or by an error.
unfoldable pub receive_all : Environment → Bytes → ℕ → List Received → Hub → Option Hub
receive_all env server stream [] hub = some hub
receive_all env server stream (r ∷ rs) hub =
    route_agent_message env r.now server stream r.sends r.message hub >>= λ result.
    if result.1 then receive_all env server stream rs result.0 else some result.0

-- `Connect`, of a stream whose messages nothing else interrupts, that ends at a time.
unfoldable pub connect :
    Environment → Stream → Option AgentMessage → List Received → ℕ → Hub → Option Hub
connect env st first rs ends_at hub =
    let (hub', server) = begin_connect env st first hub in
    elim server [
      | none ↦ some hub'
      | some id ↦ receive_all env id st.stream rs hub' >>= λ after.
          on_agent_disconnected env ends_at id st.stream after
    ]
