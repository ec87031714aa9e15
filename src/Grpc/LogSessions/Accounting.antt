-- ===== src/Grpc/LogSessions/Accounting.antt =====
-- What happens to each chunk that an agent sends on one log stream.
use mathlib.Core.List.{append_assoc}
use aerodocs.Channel.{Chan, make_chan, receive}
use aerodocs.Grpc.Key.{make_key}
use aerodocs.Grpc.LogSessions.{
  LogSessions, register, deliver, drain_overflow, read, count_at, count_at-assign,
}
use aerodocs.Base.{
  ℕ, ◌+◌, ◌%◌, ◌^◌, ◌≤◌, ◌<◌, ◌≡◌, refl, sym, ap, inl, inr, Bool, true, false, Option, none, some,
  List, [], ◌∷◌, ◌++◌, arith, ltb, Bool-cases, ◌>>=◌, length, length-append, Bytes, lookup, assign,
  lookup-assign_self,
}

-- Calls on one session between its registration and its removal.
pub data Event : Type 0 where
  delivers : Bytes → Event
  reads drains : Event

-- What the callers have seen: chunks handed to `Deliver`, chunks that it accepted, chunks read, and
-- the number of drops reported.
pub record Tally : Type 0 where
  pub sent : ℕ
  pub accepted : List Bytes
  pub received : List Bytes
  pub reported : ℕ

abbrev pub note_sent : Bytes → Bool → Tally → Tally
note_sent chunk true t = record t { sent = t.sent + 1; accepted = t.accepted ++ chunk ∷ [] }
note_sent chunk false t = record t { sent = t.sent + 1 }

abbrev pub note_read : Option Bytes → Tally → Tally
note_read none t = t
note_read (some chunk) t = record t { received = t.received ++ chunk ∷ [] }

module _ (server request : Bytes) where
  pub step : LogSessions × Tally → Event → Option (LogSessions × Tally)
  step (ls, t) (delivers chunk) = do
    (ls', sent) ← deliver server request chunk ls
    some (ls', note_sent chunk sent t)
  step (ls, t) reads = let (ls', chunk) = read server request ls in some (ls', note_read chunk t)
  step (ls, t) drains =
      let (ls', n) = drain_overflow server request ls in
      some (ls', record t { reported = t.reported + n })

  pub run : LogSessions × Tally → List Event → Option (LogSessions × Tally)
  run s [] = some s
  run s (e ∷ es) = do s' ← step s e; run s' es

  -- The state of the session, and where its chunks are.
  pub record Balanced (s : LogSessions × Tally) : Type 0 where
    pub chan : Chan Bytes
    pub held : lookup (make_key server request) s.0.channels ≡ some chan
    pub is_open : chan.closed ≡ false
    pub cap : chan.cap ≡ 64
    pub bounded : length chan.buffer ≤ 64
    pub in_order : s.1.accepted ≡ s.1.received ++ chan.buffer
    pub balance :
        s.1.sent
        ≡ length s.1.accepted + s.1.reported + count_at (make_key server request) s.0.overflow

  abbrev BalancedAfter : ℕ → Option (LogSessions × Tally) → Type 0
  BalancedAfter n o = (s : LogSessions × Tally) × (o ≡ some s) × Balanced s × (s.1.sent ≤ n + 1)

  deliver-Balanced :
      (ls : LogSessions) (t : Tally) (chunk : Bytes)
      → t.sent + 1 < 2 ^ 64
      → Balanced (ls, t)
      → BalancedAfter t.sent (step (ls, t) (delivers chunk))
  unfolding step deliver
  deliver-Balanced ls t chunk room b = elim (Bool-cases (ltb (length b.chan.buffer) 64)) [
    | inl fits ↦ (
      (record ls { channels = assign key longer ls.channels }, note_sent chunk true t),
      rw (b.held, b.is_open, b.cap, fits) refl,
      record {
        chan = longer;
        held = lookup-assign_self key longer ls.channels;
        is_open = b.is_open;
        cap = b.cap;
        bounded = ground (arith, fits, length-append b.chan.buffer (chunk ∷ []));
        in_order = rw (b.in_order) (append_assoc t.received b.chan.buffer (chunk ∷ []));
        balance = omega (arith, b.balance, length-append t.accepted (chunk ∷ []));
      },
      omega arith,
    )
    | inr full ↦ (
      (record ls { overflow = assign key count ls.overflow }, note_sent chunk false t),
      rw (b.held, b.is_open, b.cap, full) refl,
      record {
        chan = b.chan;
        held = b.held;
        is_open = b.is_open;
        cap = b.cap;
        bounded = b.bounded;
        in_order = b.in_order;
        balance = omega (arith, b.balance, count_at-assign key count ls.overflow);
      },
      omega arith,
    )
  ]
    where
      key : Bytes
      key = make_key server request

      longer : Chan Bytes
      longer = record b.chan { buffer = b.chan.buffer ++ chunk ∷ [] }

      count : ℕ
      count = (count_at key ls.overflow + 1) % 2 ^ 64

  read-Balanced :
      (ls : LogSessions) (t : Tally) (xs : List Bytes) (b : Balanced (ls, t))
      → b.chan.buffer ≡ xs
      → BalancedAfter t.sent (step (ls, t) reads)
  unfolding step read receive
  read-Balanced ls t [] b e = (
    (record ls { channels = assign key b.chan ls.channels }, t),
    rw (b.held, e) refl,
    record {
      chan = b.chan;
      held = lookup-assign_self key b.chan ls.channels;
      is_open = b.is_open;
      cap = b.cap;
      bounded = b.bounded;
      in_order = b.in_order;
      balance = b.balance;
    },
    omega arith,
  )
    where
      key : Bytes
      key = make_key server request
  read-Balanced ls t (x ∷ xs) b e = (
    (record ls { channels = assign key rest ls.channels }, note_read (some x) t),
    rw (b.held, e) refl,
    record {
      chan = rest;
      held = lookup-assign_self key rest ls.channels;
      is_open = b.is_open;
      cap = b.cap;
      bounded = omega (arith, b.bounded, ap length e);
      in_order = rw (b.in_order, e) (sym (append_assoc t.received (x ∷ []) xs));
      balance = b.balance;
    },
    omega arith,
  )
    where
      key : Bytes
      key = make_key server request

      rest : Chan Bytes
      rest = record b.chan { buffer = xs }

  drain-Balanced :
      (ls : LogSessions) (t : Tally) → Balanced (ls, t) → BalancedAfter t.sent (step (ls, t) drains)
  unfolding step drain_overflow
  drain-Balanced ls t b = elim (Bool-cases (ltb 0 (count_at key ls.overflow))) [
    | inl some_lost ↦ (
      (
        record ls { overflow = assign key 0 ls.overflow },
        record t { reported = t.reported + count_at key ls.overflow },
      ),
      rw some_lost refl,
      record {
        chan = b.chan;
        held = b.held;
        is_open = b.is_open;
        cap = b.cap;
        bounded = b.bounded;
        in_order = b.in_order;
        balance = omega (arith, b.balance, count_at-assign key 0 ls.overflow);
      },
      omega arith,
    )
    | inr none_lost ↦ (
      (ls, record t { reported = t.reported + count_at key ls.overflow }),
      rw none_lost refl,
      record {
        chan = b.chan;
        held = b.held;
        is_open = b.is_open;
        cap = b.cap;
        bounded = b.bounded;
        in_order = b.in_order;
        balance = ground (arith, b.balance);
      },
      omega arith,
    )
  ]
    where
      key : Bytes
      key = make_key server request

  step-Balanced :
      (s : LogSessions × Tally) (e : Event)
      → s.1.sent + 1 < 2 ^ 64
      → Balanced s
      → BalancedAfter s.1.sent (step s e)
  step-Balanced (ls, t) (delivers chunk) room b = deliver-Balanced ls t chunk room b
  step-Balanced (ls, t) reads room b = read-Balanced ls t b.chan.buffer b refl
  step-Balanced (ls, t) drains room b = drain-Balanced ls t b

  run-Balanced :
      (s : LogSessions × Tally) (es : List Event)
      → s.1.sent + length es < 2 ^ 64
      → Balanced s
      → (s' : LogSessions × Tally) × (run s es ≡ some s') × Balanced s'
  unfolding run
  run-Balanced s [] room b = (s, refl, b)
  run-Balanced s (e ∷ es) room b =
      let (s', stepped, b', grown) = step-Balanced s e (omega arith) b in
      rw stepped (run-Balanced s' es (omega arith) b')

-- From its registration on, a log stream loses no chunk silently and reorders none: whatever the
-- order of deliveries, reads and overflow reports (fewer than 2^64), no call panics, the chunks that
-- were accepted are those read followed by those buffered, at most 64, and every other chunk that
-- was sent is counted, once, as reported or as overflow still to be reported.
pub run-register-Balanced :
    (server request : Bytes) (ls : LogSessions) (es : List Event)
    → length es < 2 ^ 64
    → (s : LogSessions × Tally) × (run server request
          (
            register server request ls,
            record { sent = 0; accepted = []; received = []; reported = 0 },
          )
          es
        ≡ some s)
      × Balanced server request s
unfolding register
run-register-Balanced server request ls es room =
    run-Balanced server request _ es (omega arith) (record {
      chan = make_chan 64;
      held = lookup-assign_self (make_key server request) (make_chan 64) ls.channels;
      is_open = refl;
      cap = refl;
      bounded = omega arith;
      in_order = refl;
      balance = omega (arith, count_at-assign (make_key server request) 0 ls.overflow);
    })
