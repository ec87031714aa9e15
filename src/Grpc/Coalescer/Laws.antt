-- ===== src/Grpc/Coalescer/Laws.antt =====
-- How far apart the writes of one server are.
use aerodocs.ConnMgr.{keys_of}
use aerodocs.Grpc.Coalescer.{
  Cause, by_heartbeat, by_force, by_flush, Write, HeartbeatCoalescer, new_heartbeat_coalescer,
  written, is_recent, record_heartbeat, force_write, flush, write_each, flush_all,
}
use aerodocs.Base.{
  ℕ, ◌+◌, ◌≤◌, ◌<◌, ◌≡◌, refl, sym, ◌∙◌, ◌↔◌, inl, inr, false, Option, none, some, List, [], ◌∷◌,
  arith, if◌then◌else◌, Bool-cases, Option-cases, Bytes, text_eq, Table, lookup, lookup-delete,
  lookup-assign,
}

-- The time of a server's last write, if no flush stands between.
abbrev pub time_of : Write → Option ℕ
time_of w = elim w.cause [ by_flush ↦ none | _ ↦ some w.at ]

unfoldable pub latest : Bytes → List Write → Option ℕ
latest server [] = none
latest server (w ∷ ws) = if text_eq w.server server then time_of w else latest server ws

-- A heartbeat's write is an interval after the server's write before it.
abbrev pub Gap : Cause → Option ℕ → ℕ → ℕ → Type 0
Gap by_heartbeat (some last) at interval = last + interval ≤ at
Gap by_heartbeat none at interval = Unit
Gap by_force last at interval = Unit
Gap by_flush last at interval = Unit

abbrev pub Spaced : ℕ → List Write → Type 0
Spaced interval [] = Unit
Spaced interval (w ∷ ws) = Gap w.cause (latest w.server ws) w.at interval × Spaced interval ws

pub data Op : Type 0 where
  heartbeats forces flushes : Bytes → ℕ → Op
  flushes_all : ℕ → Op

unfoldable pub step : HeartbeatCoalescer → Op → HeartbeatCoalescer
step hc (heartbeats server now) = (record_heartbeat server now hc).0
step hc (forces server now) = force_write server now hc
step hc (flushes server now) = flush server now hc
step hc (flushes_all now) = flush_all now hc

unfoldable pub run : HeartbeatCoalescer → List Op → HeartbeatCoalescer
run hc [] = hc
run hc (o ∷ os) = run (step hc o) os

-- The map agrees with the log.
pub record IsValid (interval : ℕ) (hc : HeartbeatCoalescer) : Type 0 where
  pub same : hc.interval ≡ interval
  pub agrees : (server : Bytes) → lookup server hc.last_written ≡ latest server hc.writes
  pub spaced : Spaced interval hc.writes

latest-written :
    (server j : Bytes) (now : ℕ) (cause : Cause) (hc : HeartbeatCoalescer)
    → latest j (written server now cause hc) ≡ (
        if text_eq server j
        then time_of (record { server = server; at = now; cause = cause })
        else latest j hc.writes)
unfolding latest
latest-written server j now cause hc = refl

not_recent-Gap :
    (last : Option ℕ) (now interval : ℕ)
    → is_recent last now interval ≡ false
    → Gap by_heartbeat last now interval
not_recent-Gap none now interval h = tt
not_recent-Gap (some last) now interval h = ground arith

module _ (interval : ℕ) (hc : HeartbeatCoalescer) (v : IsValid interval hc) where
  heartbeat-IsValid :
      (server : Bytes) (now : ℕ) → IsValid interval (record_heartbeat server now hc).0
  unfolding record_heartbeat
  heartbeat-IsValid server now =
      elim (Bool-cases (is_recent (lookup server hc.last_written) now hc.interval)) [
        | inl skip ↦ rw (skip, record_heartbeat) v
        | inr write ↦
            rw (write, record_heartbeat)
              (record {
                same = v.same;
                agrees = λ j.
                    lookup-assign server j now hc.last_written
                    ∙ rw (v.agrees j) (sym (latest-written server j now by_heartbeat hc));
                spaced = (
                  rw (← v.agrees server, ← v.same) (not_recent-Gap _ now hc.interval write),
                  v.spaced,
                );
              })
      ]

  force-IsValid : (server : Bytes) (now : ℕ) → IsValid interval (force_write server now hc)
  unfolding force_write
  force-IsValid server now = record {
    same = v.same;
    agrees = λ j.
        lookup-assign server j now hc.last_written
        ∙ rw (v.agrees j) (sym (latest-written server j now by_force hc));
    spaced = (tt, v.spaced);
  }

  flush-IsValid : (server : Bytes) (now : ℕ) → IsValid interval (flush server now hc)
  unfolding flush
  flush-IsValid server now = record {
    same = v.same;
    agrees = λ j.
        lookup-delete server j hc.last_written
        ∙ rw (v.agrees j) (sym (latest-written server j now by_flush hc));
    spaced = (tt, v.spaced);
  }

write_each-Spaced :
    (interval now : ℕ) (ids : List Bytes) (log : List Write)
    → Spaced interval log
    → Spaced interval (write_each now ids log)
unfolding write_each
write_each-Spaced interval now [] log h = h
write_each-Spaced interval now (id ∷ ids) log h = write_each-Spaced interval now ids _ (tt, h)

latest-write_each :
    (server : Bytes) (now : ℕ) (ids : List Bytes) (log : List Write)
    → latest server log ≡ none
    → latest server (write_each now ids log) ≡ none
unfolding write_each latest
latest-write_each server now [] log h = h
latest-write_each server now (id ∷ ids) log h =
    latest-write_each server now ids _ (ground (arith, h))

-- What a map's flush leaves: nothing is known of any server.
flush_table :
    (server : Bytes) (now : ℕ) (m : Table ℕ) (log : List Write)
    → lookup server m ≡ latest server log
    → latest server (write_each now (keys_of m) log) ≡ none
unfolding write_each latest lookup
flush_table server now [] log h = sym h
flush_table server now ((k, t) ∷ m) log h = elim (Bool-cases (text_eq k server)) [
  | inl here ↦ latest-write_each server now (keys_of m) _ (rw here refl)
  | inr there ↦ flush_table server now m _ (rw there (rw there at h))
]

flush_all-IsValid :
    (interval now : ℕ) (hc : HeartbeatCoalescer)
    → IsValid interval hc
    → IsValid interval (flush_all now hc)
unfolding flush_all lookup
flush_all-IsValid interval now hc v = record {
  same = v.same;
  agrees = λ j. sym (flush_table j now hc.last_written hc.writes (v.agrees j));
  spaced = write_each-Spaced interval now (keys_of hc.last_written) hc.writes v.spaced;
}

step-IsValid :
    (interval : ℕ) (hc : HeartbeatCoalescer) (o : Op)
    → IsValid interval hc
    → IsValid interval (step hc o)
unfolding step
step-IsValid interval hc (heartbeats server now) v = heartbeat-IsValid interval hc v server now
step-IsValid interval hc (forces server now) v = force-IsValid interval hc v server now
step-IsValid interval hc (flushes server now) v = flush-IsValid interval hc v server now
step-IsValid interval hc (flushes_all now) v = flush_all-IsValid interval now hc v

run-IsValid :
    (interval : ℕ) (os : List Op) (hc : HeartbeatCoalescer)
    → IsValid interval hc
    → IsValid interval (run hc os)
unfolding run
run-IsValid interval [] hc v = v
run-IsValid interval (o ∷ os) hc v =
    run-IsValid interval os (step hc o) (step-IsValid interval hc o v)

new-IsValid : (interval : ℕ) → IsValid interval (new_heartbeat_coalescer interval)
unfolding new_heartbeat_coalescer lookup latest
new-IsValid interval = record { same = refl; agrees = λ j. refl; spaced = tt }

-- After any sequence of calls, whatever the clock shows: a write that a heartbeat made is at least an
-- interval after the same server's write before it (if no flush stands between); and a heartbeat is
-- skipped exactly when the server's last write, since its last flush, is less than an interval old.
pub run-Spaced :
    (interval now : ℕ) (os : List Op) (server : Bytes)
    → Spaced interval (run (new_heartbeat_coalescer interval) os).writes
      × (((record_heartbeat server now (run (new_heartbeat_coalescer interval) os)).1 ≡ false) ↔ (
          (last : ℕ) × (latest server (run (new_heartbeat_coalescer interval) os).writes
            ≡ some last)
          × (now < last + interval)))
unfolding record_heartbeat
run-Spaced interval now os server =
    let hc = run (new_heartbeat_coalescer interval) os in
    let v = run-IsValid interval os _ (new-IsValid interval) in
    (
      v.spaced,
      elim (Option-cases (latest server hc.writes)) [
        | inl fresh ↦ (
          λ h. absurd (ground (arith, h, v.agrees server, fresh)),
          λ p. absurd (ground (arith, p, fresh)),
        )
        | inr (t, found) ↦ (
          λ h. (t, found, ground (arith, h, v.agrees server, found, v.same)),
          λ p. ground (arith, p, v.agrees server, found, v.same),
        )
      ],
    )
