-- ===== src/Grpc/Handler/Confined.antt =====
-- The stream of one server reaches nothing of another server, and no message on it panics.
use aerodocs.Grpc.Key.{colon, make_key, make_key_apart}
use aerodocs.Grpc.Handler.{
  AgentMessage, heartbeat, file_list_response, file_read_response, log_stream_chunk,
  file_upload_ack, file_delete_response, unregister_ack, cert_renew_request, terminal_open_ack,
  terminal_data, terminal_exit, registers, unhandled, Hub, Environment,
}
use aerodocs.Grpc.Handler.Route.{route_agent_message, Received, receive_all}
use aerodocs.Grpc.Handler.Reach.{IsValid, Away, Confined, Confined-refl, Confined-trans}
use aerodocs.Grpc.Handler.Steps.{
  Routed, pending-Routed, log_chunk-Routed, terminal_data-Routed, terminal_exit-Routed,
  renewal-Routed, heartbeat-Routed,
}
use aerodocs.Base.{
  ℕ, ◌≡◌, refl, ◌≢◌, inl, inr, Bool, true, some, List, [], ◌∷◌, Bool-cases, Bytes, Lacks,
}

route-Routed :
    (env : Environment) (now : ℕ) (server : Bytes) (stream : ℕ) (sends : Bool) (msg : AgentMessage)
    (hub : Hub) (v : IsValid hub)
    → Routed server hub v (route_agent_message env now server stream sends msg hub)
unfolding route_agent_message
route-Routed env now server stream sends (heartbeat id ip) hub v =
    heartbeat-Routed server hub v env now stream sends
route-Routed env now server stream sends (file_list_response r) hub v =
    pending-Routed server hub v r.request_id (file_list_response r)
route-Routed env now server stream sends (file_read_response r) hub v =
    pending-Routed server hub v r.request_id (file_read_response r)
route-Routed env now server stream sends (log_stream_chunk request chunk) hub v =
    log_chunk-Routed server hub v request chunk
route-Routed env now server stream sends (file_upload_ack r) hub v =
    pending-Routed server hub v r.request_id (file_upload_ack r)
route-Routed env now server stream sends (file_delete_response r) hub v =
    pending-Routed server hub v r.request_id (file_delete_response r)
route-Routed env now server stream sends (unregister_ack request success) hub v =
    pending-Routed server hub v request (unregister_ack request success)
route-Routed env now server stream sends (cert_renew_request csr) hub v =
    renewal-Routed server hub v env stream sends csr
route-Routed env now server stream sends (terminal_open_ack session success error) hub v =
    pending-Routed server hub v session (terminal_open_ack session success error)
route-Routed env now server stream sends (terminal_data session bytes) hub v =
    terminal_data-Routed server hub v session bytes
route-Routed env now server stream sends (terminal_exit session exit_code error) hub v =
    terminal_exit-Routed server hub v session exit_code error
route-Routed env now server stream sends (registers reg) hub v =
    (hub, (true, (refl, (v, Confined-refl server hub))))
route-Routed env now server stream sends unhandled hub v =
    (hub, (true, (refl, (v, Confined-refl server hub))))

-- However the messages of a stream go, `receive_all` ends without a panic, with every channel as its
-- component keeps it, and has changed nothing but what is kept for the stream's own server: no other
-- server's pending requests, log streams, terminals, connection and heartbeats, no entry of the audit
-- log, and of the servers' table at most the times of last contact and of update in the row of that
-- server.
pub receive_all-Confined :
    (env : Environment) (server : Bytes) (stream : ℕ) (rs : List Received) (hub : Hub)
    → IsValid hub
    → (hub' : Hub) × ((receive_all env server stream rs hub ≡ some hub')
        × (IsValid hub' × Confined server hub hub'))
unfolding receive_all
receive_all-Confined env server stream [] hub v = (hub, (refl, (v, Confined-refl server hub)))
receive_all-Confined env server stream (r ∷ rs) hub v =
    let (mid, (goes_on, (e, (v1, c1)))) =
      route-Routed env r.now server stream r.sends r.message hub v in
    elim (Bool-cases goes_on) [
      | inl on ↦
          let (hub', (e', (v2, c2))) = receive_all-Confined env server stream rs mid v1 in
          (hub', (rw (e, on) e', (v2, Confined-trans server hub mid hub' c1 c2)))
      | inr off ↦ (mid, (rw (e, off) refl, (v1, c1)))
    ]

-- The keys of another server are not those of a server, if no id of a server holds a colon.
pub make_key-Away :
    (server other request : Bytes)
    → Lacks colon server
    → Lacks colon other
    → server ≢ other
    → Away server (make_key other request)
make_key-Away server other request h h' ne r = make_key_apart server other r request h h' ne
