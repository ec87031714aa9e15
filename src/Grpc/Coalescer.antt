-- ===== src/Grpc/Coalescer.antt =====
-- hub/internal/grpcserver/heartbeat_coalescer.go: which heartbeats reach the database. The writes are
-- a log, newest first; time is an argument of each call, in nanoseconds.
pub mod Laws
mod Tests
use aerodocs.ConnMgr.{keys_of}
use aerodocs.Base.{
  ℕ, zero, suc, ◌+◌, ◌-◌, ◌*◌, ◌/◌, ◌%◌, ◌^◌, ◌≤◌, ◌<◌, ◌≡◌, refl, sym, ap, ◌∙◌, ◌≢◌, ◌↔◌, ◌⊎◌, inl,
  inr, Bool, true, false, not, ◌&&◌, ◌||◌, Option, none, some, List, [], ◌∷◌, ◌++◌, map, arith, ltb,
  leb, ◌==◌, ==_iff, if◌then◌else◌, Bool-cases, Option-cases, ◌>>=◌, length, length-append, take,
  drop, take-append-drop, length-take, length-drop, get_last?, keep, length-keep-le, any, All,
  All-append, All-keep, Bytes, text, text_eq, text_eq_refl, eq_of_text_eq, text_eq_iff,
  ne_of_text_eq, has_prefix, contains, has_prefix-append, eq_of_has_prefix, Lacks, split_unique,
  Table, lookup, delete, assign, Distinct, lookup-delete, lookup-assign, lookup-delete_self,
  lookup-assign_self, delete-Distinct, assign-Distinct, length-delete-le, length-delete-lt,
  length-assign-le, length-assign_old, delete_fresh, Entries, delete-Entries, assign-Entries,
  lookup-Entries,
}

-- Which method made a write.
pub data Cause : Type 0 where
  by_heartbeat by_force by_flush : Cause

-- A call of `UpdateServerLastSeen`, with the time and the method that made it.
pub record Write : Type 0 where
  pub server : Bytes
  pub at : ℕ
  pub cause : Cause

pub record HeartbeatCoalescer : Type 0 where
  pub interval : ℕ
  pub last_written : Table ℕ
  pub writes : List Write

unfoldable pub new_heartbeat_coalescer : ℕ → HeartbeatCoalescer
new_heartbeat_coalescer interval = record { interval = interval; last_written = []; writes = [] }

abbrev pub written : Bytes → ℕ → Cause → HeartbeatCoalescer → List Write
written server now cause hc = record { server = server; at = now; cause = cause } ∷ hc.writes

-- `ok && now.Sub(last) < hc.interval`.
abbrev pub is_recent : Option ℕ → ℕ → ℕ → Bool
is_recent none now interval = false
is_recent (some last) now interval = ltb now (last + interval)

unfoldable pub record_heartbeat : Bytes → ℕ → HeartbeatCoalescer → HeartbeatCoalescer × Bool
record_heartbeat server now hc =
    if is_recent (lookup server hc.last_written) now hc.interval then (hc, false) else (
      record hc {
        last_written = assign server now hc.last_written;
        writes = written server now by_heartbeat hc;
      },
      true,
    )

unfoldable pub force_write : Bytes → ℕ → HeartbeatCoalescer → HeartbeatCoalescer
force_write server now hc = record hc {
  last_written = assign server now hc.last_written;
  writes = written server now by_force hc;
}

unfoldable pub flush : Bytes → ℕ → HeartbeatCoalescer → HeartbeatCoalescer
flush server now hc = record hc {
  last_written = delete server hc.last_written;
  writes = written server now by_flush hc;
}

-- The loop of `FlushAll`.
unfoldable pub write_each : ℕ → List Bytes → List Write → List Write
write_each now [] log = log
write_each now (id ∷ ids) log =
    write_each now ids (record { server = id; at = now; cause = by_flush } ∷ log)

unfoldable pub flush_all : ℕ → HeartbeatCoalescer → HeartbeatCoalescer
unfolding write_each
flush_all now hc = record hc {
  last_written = [];
  writes = write_each now (keys_of hc.last_written) hc.writes;
}
