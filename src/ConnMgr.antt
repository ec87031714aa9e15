-- ===== src/ConnMgr.antt =====
-- hub/internal/connmgr/connmgr.go: the live connection of each server. A stream is a number; time is
-- an argument of each call, in nanoseconds.
pub mod Laws
mod Tests
use aerodocs.Base.{
  ℕ, zero, suc, ◌+◌, ◌-◌, ◌*◌, ◌/◌, ◌%◌, ◌^◌, ◌≤◌, ◌<◌, ◌≡◌, refl, sym, ap, ◌∙◌, ◌≢◌, ◌↔◌, ◌⊎◌, inl,
  inr, Bool, true, false, not, ◌&&◌, ◌||◌, Option, none, some, List, [], ◌∷◌, ◌++◌, map, arith, ltb,
  leb, ◌==◌, ==_iff, if◌then◌else◌, Bool-cases, Option-cases, ◌>>=◌, length, length-append, take,
  drop, take-append-drop, length-take, length-drop, get_last?, keep, length-keep-le, any, All,
  All-append, All-keep, Bytes, text, text_eq, text_eq_refl, eq_of_text_eq, text_eq_iff,
  ne_of_text_eq, has_prefix, contains, has_prefix-append, eq_of_has_prefix, Lacks, split_unique,
  Table, lookup, delete, assign, Distinct, lookup-delete, lookup-assign, lookup-delete_self,
  lookup-assign_self, delete-Distinct, assign-Distinct, length-delete-le, length-delete-lt,
  length-assign-le, length-assign_old, delete_fresh, Entries, delete-Entries, assign-Entries,
  lookup-Entries,
}

pub record AgentConn : Type 0 where
  pub server_id : Bytes
  pub stream : ℕ
  pub last_seen : ℕ

pub record ConnManager : Type 0 where
  pub streams : Table AgentConn

unfoldable pub new_conn_manager : ConnManager
new_conn_manager = record { streams = [] }

unfoldable pub register : Bytes → ℕ → ℕ → ConnManager → ConnManager
register server stream now cm = record {
  streams =
      assign server (record { server_id = server; stream = stream; last_seen = now }) cm.streams;
}

unfoldable pub unregister : Bytes → ConnManager → ConnManager
unregister server cm = record { streams = delete server cm.streams }

unfoldable pub unregister_if_current : Bytes → ℕ → ConnManager → ConnManager × Bool
unregister_if_current server stream cm = elim (lookup server cm.streams) [
  | none ↦ (cm, false)
  | some conn ↦
      if conn.stream == stream
      then (record { streams = delete server cm.streams }, true)
      else (cm, false)
]

unfoldable pub get_conn : Bytes → ConnManager → Option AgentConn
get_conn server cm = lookup server cm.streams

-- The keys of a map, in the order of its loop.
abbrev pub keys_of {ℓ} : {V : Type ℓ} → Table V → List Bytes
keys_of m = map (λ e. e.0) m

unfoldable pub active_server_ids : ConnManager → List Bytes
active_server_ids cm = keys_of cm.streams

unfoldable pub update_heartbeat : Bytes → ℕ → ConnManager → ConnManager
update_heartbeat server now cm = elim (lookup server cm.streams) [
  | none ↦ cm
  | some conn ↦ record { streams = assign server (record conn { last_seen = now }) cm.streams }
]

-- `LastSeen` is before `now - maxAge`.
abbrev pub is_stale : ℕ → ℕ → AgentConn → Bool
is_stale max_age now conn = ltb (conn.last_seen + max_age) now

unfoldable pub stale_connections : ℕ → ℕ → ConnManager → List Bytes
stale_connections max_age now cm = keys_of (keep (λ e. is_stale max_age now e.1) cm.streams)
