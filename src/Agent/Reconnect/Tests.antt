-- ===== src/Agent/Reconnect/Tests.antt =====
-- Two attempts that fail, after a stream.
use aerodocs.Agent.Reconnect.{new_client, Attempt, registration, other, run}
use aerodocs.Agent.Reconnect.Laws.{IsValid, InBounds, run-InBounds}
use aerodocs.Base.{refl, true, false, List, [], ◌∷◌, arith, All}

abbrev attempts : List Attempt
attempts =
    record { streamed = true; failure = other; done = false; done_waiting = false }
    ∷ record { streamed = false; failure = registration; done = false; done_waiting = false }
    ∷ []

new_client-IsValid : IsValid new_client
unfolding new_client
new_client-IsValid = record { shortest = omega arith; longest = omega arith; most = refl }

run-InBounds_example : All InBounds (run attempts new_client 0).0
run-InBounds_example = run-InBounds attempts new_client 0 new_client-IsValid
