-- ===== src/Agent/Reconnect.antt =====
-- agent/internal/client/client.go, Run, nextBackoff and resetBackoff: how the agent connects again. Time
-- is in nanoseconds. What `connectAndStream` does and returns is an argument of each attempt.
pub mod Laws
mod Tests
use aerodocs.Base.{
  ℕ, suc, ◌*◌, ◌⊎◌, inl, inr, Bool, true, false, Option, none, some, List, [], ◌∷◌, ltb, leb,
  if◌then◌else◌,
}

abbrev pub second : ℕ
second = 1000000000

pub record Client : Type 0 where
  pub backoff : ℕ
  pub max_backoff : ℕ

unfoldable pub new_client : Client
new_client = record { backoff = 1 * second; max_backoff = 60 * second }

unfoldable pub next_backoff : Client → Client × ℕ
next_backoff c =
    let doubled = c.backoff * 2 in
    (record c { backoff = if ltb c.max_backoff doubled then c.max_backoff else doubled }, c.backoff)

unfoldable pub reset_backoff : Client → Client
reset_backoff c = record c { backoff = 1 * second }

-- The error of `connectAndStream`: to connect again with the new certificate, one whose text names the
-- registration, another one or none.
pub data Failure : Type 0 where
  reconnect_with_mtls : Failure
  registration : Failure
  other : Failure

pub record Attempt : Type 0 where
  -- The stream was open, and the backoff reset.
  pub streamed : Bool
  pub failure : Failure
  -- The context is done after the attempt, and in the wait after it.
  pub done : Bool
  pub done_waiting : Bool

pub data Exit : Type 0 where
  cancelled : Exit
  unregistered : Exit

-- The end of a round: the wait, for a count of failures, or the exit.
unfoldable pub wait_for : Bool → Client → ℕ → (Client × ℕ × Option ℕ) ⊎ Exit
unfolding next_backoff
wait_for true c reg_failures = inr cancelled
wait_for false c reg_failures = inl ((next_backoff c).0, reg_failures, some (next_backoff c).1)

unfoldable pub after_attempt : Failure → Bool → Client → ℕ → (Client × ℕ × Option ℕ) ⊎ Exit
unfolding wait_for reset_backoff
after_attempt reconnect_with_mtls done_waiting c reg_failures = inl (reset_backoff c, 0, none)
after_attempt registration done_waiting c reg_failures =
    if leb 3 (suc reg_failures)
    then inr unregistered
    else wait_for done_waiting c (suc reg_failures)
after_attempt other done_waiting c reg_failures = wait_for done_waiting c 0

-- One round of the loop, with the count of failures: the next state and what was waited for, or the exit.
unfoldable pub attempt : Attempt → Client → ℕ → (Client × ℕ × Option ℕ) ⊎ Exit
unfolding after_attempt
attempt a c reg_failures =
    if a.done
    then inr cancelled
    else after_attempt a.failure a.done_waiting (if a.streamed then reset_backoff c else c)
        reg_failures

-- The waits of the loop, and its exit, if the attempts lead to one.
unfoldable pub run : List Attempt → Client → ℕ → List ℕ × Option Exit
unfolding attempt
run [] c reg_failures = ([], none)
run (a ∷ as') c reg_failures = elim (attempt a c reg_failures) [
  | inr exit ↦ ([], some exit)
  | inl (c', n, none) ↦ run as' c' n
  | inl (c', n, some wait) ↦ let (waits, exit) = run as' c' n in (wait ∷ waits, exit)
]
