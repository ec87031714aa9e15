-- ===== src/Server/RateLimiter/Window.antt =====
-- The limit over a sliding window, as long as no address has to be evicted.
use aerodocs.Server.RateLimiter.{
  RateLimiter, max_tracked_ips, new_rate_limiter, in_window, attempts_of, valid_attempts,
  store_valid, admit, allow,
}
use aerodocs.Server.RateLimiter.Laws.{length-keep-zero}
use aerodocs.Base.{
  ℕ, suc, ◌+◌, ◌≤◌, ◌<◌, ◌≡◌, refl, sym, ◌∙◌, ◌≢◌, inl, inr, Bool, true, false, ◌&&◌, Option, none,
  some, List, [], ◌∷◌, ◌++◌, arith, leb, if◌then◌else◌, Bool-cases, ◌>>=◌, length, keep,
  length-keep-le, Bytes, text_eq, text_eq_refl, eq_of_text_eq, Table, lookup, assign, lookup-delete,
  lookup-assign, length-delete-le, length-assign-le, length-assign_old,
}

-- An attempt of an address at a time, and the admitted ones, newest first.
abbrev pub Attempts : Type 0
Attempts = List (Bytes × ℕ)

-- The limiter after a row of attempts, and the log of those admitted.
unfoldable pub run : RateLimiter → Attempts → Attempts → Option (RateLimiter × Attempts)
run rl [] log = some (rl, log)
run rl ((ip, now) ∷ rest) log = do
  (rl', admitted) ← allow ip now rl
  run rl' rest (if admitted then (ip, now) ∷ log else log)

-- How many of the logged attempts of an address lie in the window that ends at `now`.
unfoldable pub count_window : ℕ → Bytes → ℕ → Attempts → ℕ
count_window window ip now [] = 0
count_window window ip now ((j, t) ∷ log) =
    let older = count_window window ip now log in
    if text_eq j ip && in_window window now t then suc older else older

-- At each admission the window that ends there holds no more admissions than the limit.
abbrev pub Limited : ℕ → ℕ → Attempts → Type 0
Limited limit window [] = Unit
Limited limit window ((ip, t) ∷ log) =
    (count_window window ip t ((ip, t) ∷ log) ≤ limit) × Limited limit window log

-- The times do not fall.
abbrev pub Ordered : ℕ → Attempts → Type 0
Ordered clock [] = Unit
Ordered clock ((ip, t) ∷ rest) = (clock ≤ t) × Ordered t rest

count_stored : ℕ → ℕ → List ℕ → ℕ
count_stored window now ts = length (keep (in_window window now) ts)

-- What has left the window stays out of it.
count_stored-keep :
    (window now later : ℕ) (ts : List ℕ)
    → now ≤ later
    → count_stored window later (keep (in_window window now) ts) ≡ count_stored window later ts
unfolding count_stored
count_stored-keep window now later [] h = refl
count_stored-keep window now later (t ∷ ts) h =
    ground (arith, count_stored-keep window now later ts h)

count_stored-append :
    (window later t : ℕ) (ts : List ℕ)
    → count_stored window later (ts ++ t ∷ []) ≡ (
        if in_window window later t
        then suc (count_stored window later ts)
        else count_stored window later ts)
unfolding count_stored
count_stored-append window later t [] = ground arith
count_stored-append window later t (x ∷ ts) = ground (arith, count_stored-append window later t ts)

-- The map and the log agree on every window from the clock on.
record Agrees (clock limit window : ℕ) (rl : RateLimiter) (log : Attempts) : Type 0 where
  same_limit : rl.limit ≡ limit
  same_window : rl.window ≡ window
  counts :
      (ip : Bytes) (now : ℕ)
      → clock ≤ now
      → count_stored window now (attempts_of ip rl.attempts) ≡ count_window window ip now log
  limited : Limited limit window log

attempts_of-assign :
    (ip j : Bytes) (ts : List ℕ) (m : Table (List ℕ))
    → attempts_of j (assign ip ts m) ≡ (if text_eq ip j then ts else attempts_of j m)
attempts_of-assign ip j ts m = ground (arith, lookup-assign ip j ts m)

attempts_of-store_valid :
    (ip j : Bytes) (ts : List ℕ) (m : Table (List ℕ))
    → attempts_of j (store_valid ip ts m) ≡ (if text_eq ip j then ts else attempts_of j m)
attempts_of-store_valid ip j [] m = ground (arith, lookup-delete ip j m)
attempts_of-store_valid ip j (x ∷ xs) m = attempts_of-assign ip j (x ∷ xs) m

length-store_valid-le :
    (ip : Bytes) (valid : List ℕ) (m : Table (List ℕ))
    → (length valid ≢ 0 → lookup ip m ≢ none)
    → length (store_valid ip valid m) ≤ length m
length-store_valid-le ip [] m present = length-delete-le ip m
length-store_valid-le ip (x ∷ xs) m present =
    length-assign_old ip (x ∷ xs) m (present (omega arith))

module _ (clock limit window : ℕ) (ip : Bytes) (now : ℕ) (rl : RateLimiter) (log : Attempts)
    (a : Agrees clock limit window rl log) (later : clock ≤ now) where
  own-count :
      (then_ : ℕ)
      → now ≤ then_
      → count_stored window then_ (valid_attempts ip now rl) ≡ count_window window ip then_ log
  own-count then_ h = rw a.same_window (
      count_stored-keep window now then_ (attempts_of ip rl.attempts) h
      ∙ a.counts ip then_ (omega arith))

  denied-Agrees :
      Agrees now limit window
        (record rl { attempts = store_valid ip (valid_attempts ip now rl) rl.attempts })
        log
  denied-Agrees = record {
    same_limit = a.same_limit;
    same_window = a.same_window;
    counts = λ j then_ h. elim (Bool-cases (text_eq ip j)) [
      | inl here ↦
          rw (attempts_of-store_valid ip j (valid_attempts ip now rl) rl.attempts, here)
            (rw (← eq_of_text_eq ip j here) (own-count then_ h))
      | inr there ↦
          rw (attempts_of-store_valid ip j (valid_attempts ip now rl) rl.attempts, there)
            (a.counts j then_ (omega arith))
    ];
    limited = a.limited;
  }

  admitted-own :
      (then_ : ℕ)
      → now ≤ then_
      → count_stored window then_ (valid_attempts ip now rl ++ now ∷ [])
        ≡ count_window window ip then_ ((ip, now) ∷ log)
  unfolding count_window
  admitted-own then_ h =
      count_stored-append window then_ now (valid_attempts ip now rl)
      ∙ rw (own-count then_ h) (ground (arith, text_eq_refl ip))

  admitted-other :
      (j : Bytes) (then_ : ℕ)
      → text_eq ip j ≡ false
      → count_window window j then_ ((ip, now) ∷ log) ≡ count_window window j then_ log
  unfolding count_window
  admitted-other j then_ there = rw there refl

  admitted-limited :
      length (valid_attempts ip now rl) < limit
      → count_window window ip now ((ip, now) ∷ log) ≤ limit
  unfolding count_stored count_window
  admitted-limited room = ground (
    arith,
    own-count now (omega arith),
    room,
    length-keep-le (in_window window now) (valid_attempts ip now rl),
  )

  admitted-Agrees :
      (m : Table (List ℕ))
      → m ≡ store_valid ip (valid_attempts ip now rl) rl.attempts
      → length (valid_attempts ip now rl) < limit
      → Agrees now limit window
          (record rl { attempts = assign ip (valid_attempts ip now rl ++ now ∷ []) m })
          ((ip, now) ∷ log)
  admitted-Agrees m same room = record {
    same_limit = a.same_limit;
    same_window = a.same_window;
    counts = λ j then_ h. elim (Bool-cases (text_eq ip j)) [
      | inl here ↦
          rw (attempts_of-assign ip j (valid_attempts ip now rl ++ now ∷ []) m, here)
            (rw (← eq_of_text_eq ip j here) (admitted-own then_ h))
      | inr there ↦
          rw (attempts_of-assign ip j (valid_attempts ip now rl ++ now ∷ []) m, there, same)
            (rw (attempts_of-store_valid ip j (valid_attempts ip now rl) rl.attempts, there)
              (a.counts j then_ (omega arith) ∙ sym (admitted-other j then_ there)))
    ];
    limited = (admitted-limited room, a.limited);
  }

  -- `allow` below the cap on addresses.
  allow-Agrees :
      suc (length rl.attempts) < max_tracked_ips
      → (rl' : RateLimiter) × (admitted : Bool) × (allow ip now rl ≡ some (rl', admitted))
        × Agrees now limit window rl' (if admitted then (ip, now) ∷ log else log)
        × (length rl'.attempts ≤ suc (length rl.attempts))
  unfolding allow admit
  allow-Agrees space =
      let valid : List ℕ = valid_attempts ip now rl in
      let kept : Table (List ℕ) = store_valid ip valid rl.attempts in
      let short : length kept ≤ length rl.attempts =
        length-store_valid-le ip valid rl.attempts
          (λ left gone. left (length-keep-zero ip (in_window rl.window now) rl.attempts gone)) in
      elim (Bool-cases (leb rl.limit (length valid))) [
        | inl full ↦ (
          record rl { attempts = kept },
          false,
          rw full refl,
          denied-Agrees,
          omega (arith, short),
        )
        | inr room ↦
            let below : leb max_tracked_ips (length kept) ≡ false = ground (arith, short, space) in
            (
              record rl { attempts = assign ip (valid ++ now ∷ []) kept },
              true,
              rw (room, below) refl,
              admitted-Agrees kept refl (ground (arith, room, a.same_limit)),
              omega (arith, short, length-assign-le ip (valid ++ now ∷ []) kept),
            )
      ]

run-Limited :
    (clock limit window : ℕ) (attempts : Attempts) (rl : RateLimiter) (log : Attempts)
    → Agrees clock limit window rl log
    → Ordered clock attempts
    → length rl.attempts + length attempts < max_tracked_ips
    → (rl' : RateLimiter) × (log' : Attempts) × (run rl attempts log ≡ some (rl', log'))
      × Limited limit window log'
unfolding run
run-Limited clock limit window [] rl log a ordered space = (rl, log, refl, a.limited)
run-Limited clock limit window ((ip, now) ∷ rest) rl log a ordered space =
    let (rl₁, admitted, ran, a₁, grown) =
      allow-Agrees clock limit window ip now rl log a ordered.0 (omega arith) in
    rw ran (
      run-Limited now limit window rest rl₁ (if admitted then (ip, now) ∷ log else log) a₁ ordered.1
        (omega (arith, grown)))

-- From an empty limiter, over attempts of any addresses at times that do not fall, fewer than 100000
-- of them: no call panics, and whenever an attempt is admitted, the window that ends at it holds no
-- more admitted attempts of its address, itself included, than the limit.
pub run-new-Limited :
    (limit window : ℕ) (attempts : Attempts)
    → Ordered 0 attempts
    → length attempts < max_tracked_ips
    → (rl : RateLimiter) × (log : Attempts) × (run (new_rate_limiter limit window) attempts []
        ≡ some (rl, log))
      × Limited limit window log
unfolding new_rate_limiter count_stored count_window lookup
run-new-Limited limit window attempts ordered few =
    run-Limited 0 limit window attempts (record { attempts = []; limit = limit; window = window })
      [] (record { same_limit = refl; same_window = refl; counts = λ ip now h. refl; limited = tt })
      ordered (omega arith)
