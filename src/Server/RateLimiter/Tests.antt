-- ===== src/Server/RateLimiter/Tests.antt =====
-- Runs of the rate limiter.
use aerodocs.Server.RateLimiter.{RateLimiter, new_rate_limiter}
use aerodocs.Server.RateLimiter.Laws.{IsValid}
use aerodocs.Server.RateLimiter.Window.{Attempts, Limited, run, run-new-Limited}
use aerodocs.Base.{◌≡◌, refl, some, [], ◌∷◌, arith, text, text_eq, lookup}

abbrev two_seen : RateLimiter
two_seen = record {
  attempts = (text "a", 5 ∷ 9 ∷ []) ∷ (text "b", 7 ∷ []) ∷ [];
  limit = 2;
  window = 10;
}

two_seen-IsValid : IsValid two_seen
unfolding lookup text_eq
two_seen-IsValid = record {
  entries = omega arith;
  distinct = (refl, (refl, tt));
  named = refl;
  bounded = omega arith;
}

abbrev attempts : Attempts
attempts = (text "a", 1) ∷ (text "a", 2) ∷ (text "b", 2) ∷ (text "a", 3) ∷ (text "a", 12) ∷ []

run-new-Limited_example :
    (rl : RateLimiter) × (log : Attempts) × (run (new_rate_limiter 2 10) attempts []
      ≡ some (rl, log))
    × Limited 2 10 log
run-new-Limited_example = run-new-Limited 2 10 attempts (omega arith) (omega arith)
