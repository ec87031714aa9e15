-- ===== src/ConnMgr/Tests.antt =====
-- Runs of the connection manager.
use aerodocs.ConnMgr.{
  ConnManager, new_conn_manager, register, unregister_if_current, get_conn, update_heartbeat,
}
use aerodocs.ConnMgr.Laws.{unregister_if_current-register}
use aerodocs.Base.{◌≡◌, refl, true, false, none, some, arith, text, text_eq}

abbrev reconnected : ConnManager
reconnected =
    update_heartbeat (text "a") 3
      (register (text "a") 2 2 (register (text "a") 1 1 new_conn_manager))

unregister_if_current-register_example :
    (unregister_if_current (text "a") 1 reconnected ≡ (reconnected, false))
    × (get_conn (text "a") reconnected
        ≡ some (record { server_id = text "a"; stream = 2; last_seen = 3 }))
    × ((unregister_if_current (text "a") 2 reconnected).1 ≡ true)
    × (get_conn (text "a") (unregister_if_current (text "a") 2 reconnected).0 ≡ none)
    × (get_conn (text "b") (unregister_if_current (text "a") 2 reconnected).0
        ≡ get_conn (text "b") new_conn_manager)
unfolding text_eq
unregister_if_current-register_example =
    unregister_if_current-register (text "a") (text "b") 1 2 1 2 3 new_conn_manager (omega arith)
      refl
