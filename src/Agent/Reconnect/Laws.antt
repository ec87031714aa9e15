-- ===== src/Agent/Reconnect/Laws.antt =====
-- The waits of the agent.
use aerodocs.Agent.Reconnect.{
  second, Client, next_backoff, reset_backoff, Attempt, Failure, reconnect_with_mtls, registration,
  other, Exit, wait_for, after_attempt, attempt, run,
}
use aerodocs.Base.{
  ℕ, suc, ◌*◌, ◌≤◌, ◌≡◌, ◌⊎◌, inl, inr, Bool, true, false, Option, none, some, List, [], ◌∷◌, arith,
  leb, if◌then◌else◌, Bool-cases, All,
}

pub record IsValid (c : Client) : Type 0 where
  pub shortest : second ≤ c.backoff
  pub longest : c.backoff ≤ 60 * second
  pub most : c.max_backoff ≡ 60 * second

next_backoff-IsValid : (c : Client) → IsValid c → IsValid (next_backoff c).0
unfolding next_backoff
next_backoff-IsValid c v = record {
  shortest = ground (arith, v.shortest, v.most);
  longest = ground (arith, v.longest, v.most);
  most = v.most;
}

reset_backoff-IsValid : (c : Client) → IsValid c → IsValid (reset_backoff c)
unfolding reset_backoff
reset_backoff-IsValid c v = record { shortest = omega arith; longest = omega arith; most = v.most }

abbrev pub InBounds : ℕ → Type 0
InBounds wait = (second ≤ wait) × (wait ≤ 60 * second)

waits : (c : Client) → IsValid c → InBounds (next_backoff c).1
unfolding next_backoff
waits c v = (v.shortest, v.longest)

abbrev Sound : (Client × ℕ × Option ℕ) ⊎ Exit → Type 0
Sound (inl (c, n, none)) = IsValid c
Sound (inl (c, n, some wait)) = IsValid c × InBounds wait
Sound (inr exit) = Unit

wait_for-Sound : (w : Bool) (c : Client) (n : ℕ) → IsValid c → Sound (wait_for w c n)
unfolding wait_for
wait_for-Sound true c n v = tt
wait_for-Sound false c n v = (next_backoff-IsValid c v, waits c v)

after_attempt-Sound :
    (f : Failure) (w : Bool) (c : Client) (n : ℕ) → IsValid c → Sound (after_attempt f w c n)
unfolding after_attempt
after_attempt-Sound reconnect_with_mtls w c n v = reset_backoff-IsValid c v
after_attempt-Sound registration w c n v = elim (Bool-cases (leb 3 (suc n))) [
  | inl yes_ ↦ rw yes_ tt
  | inr no_ ↦ rw no_ (wait_for-Sound w c (suc n) v)
]
after_attempt-Sound other w c n v = wait_for-Sound w c 0 v

start-IsValid :
    (streamed : Bool) (c : Client) → IsValid c → IsValid (if streamed then reset_backoff c else c)
start-IsValid true c v = reset_backoff-IsValid c v
start-IsValid false c v = v

attempt-Sound : (a : Attempt) (c : Client) (n : ℕ) → IsValid c → Sound (attempt a c n)
unfolding attempt
attempt-Sound a c n v =
    let start = if a.streamed then reset_backoff c else c in
    let after =
      after_attempt-Sound a.failure a.done_waiting start n (start-IsValid a.streamed c v) in
    elim (Bool-cases a.done) [ inl yes_ ↦ rw yes_ tt | inr no_ ↦ rw no_ after ]

-- From a state in which the backoff is between 1 and 60 seconds, however its attempts to connect end, the agent waits at least one second and at most 60 seconds
-- between two of them, whenever it waits.
pub run-InBounds :
    (attempts : List Attempt) (c : Client) (reg_failures : ℕ)
    → IsValid c
    → All InBounds (run attempts c reg_failures).0
unfolding run
run-InBounds [] c n v = tt
run-InBounds (a ∷ as') c n v =
    go (λ c' m v'. run-InBounds as' c' m v') (attempt a c n) (attempt-Sound a c n v)
  where
    go :
        ((c' : Client) (m : ℕ) → IsValid c' → All InBounds (run as' c' m).0)
        → (o : (Client × ℕ × Option ℕ) ⊎ Exit) → Sound o
        → All InBounds
            (elim o as (λ o. List ℕ × Option Exit) [
              | inr exit ↦ ([], some exit)
              | inl (c', m, none) ↦ run as' c' m
              | inl (c', m, some wait) ↦ (wait ∷ (run as' c' m).0, (run as' c' m).1)
            ]).0
    go ih (inl (c', m, none)) sound = ih c' m sound
    go ih (inl (c', m, some wait)) sound = (sound.1, ih c' m sound.0)
    go ih (inr exit) sound = tt
