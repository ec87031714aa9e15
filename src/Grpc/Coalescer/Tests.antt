-- ===== src/Grpc/Coalescer/Tests.antt =====
-- A run of the coalescer.
use aerodocs.Grpc.Coalescer.{new_heartbeat_coalescer, record_heartbeat}
use aerodocs.Grpc.Coalescer.Laws.{Op, heartbeats, forces, Spaced, latest, run, run-Spaced}
use aerodocs.Base.{ℕ, ◌+◌, ◌<◌, ◌≡◌, ◌↔◌, false, some, List, [], ◌∷◌, text}

abbrev beats : List Op
beats = heartbeats (text "a") 10 ∷ heartbeats (text "a") 15 ∷ forces (text "a") 16 ∷ []

run-Spaced_example :
    Spaced 10 (run (new_heartbeat_coalescer 10) beats).writes
    × (((record_heartbeat (text "a") 20 (run (new_heartbeat_coalescer 10) beats)).1 ≡ false) ↔ (
        (last : ℕ) × (latest (text "a") (run (new_heartbeat_coalescer 10) beats).writes ≡ some last)
        × (20 < last + 10)))
run-Spaced_example = run-Spaced 10 20 beats (text "a")
