-- ===== src/Server/RateLimiter/Laws.antt =====
-- The limiter never panics, and keeps its lists and its map within their bounds.
use aerodocs.Server.RateLimiter.{
  RateLimiter, max_tracked_ips, Oldest, drop_oldest, in_window, attempts_of, valid_attempts,
  store_valid, admit, allow,
}
use aerodocs.Server.RateLimiter.Evict.{InLimit, evict_oldest-Evicted}
use aerodocs.Base.{
  ℕ, ◌≤◌, ◌<◌, ◌≡◌, refl, ◌≢◌, inl, inr, Bool, true, false, none, some, List, [], ◌∷◌, ◌++◌, arith,
  ltb, leb, if◌then◌else◌, Bool-cases, Option-cases, length, length-append, keep, length-keep-le,
  Bytes, text_eq, Table, lookup, assign, Distinct, lookup-delete, lookup-assign, lookup-delete_self,
  lookup-assign_self, delete-Distinct, assign-Distinct, length-delete-le, length-assign-le,
  length-assign_old, Entries, delete-Entries, assign-Entries, lookup-Entries,
}

pub record IsValid (rl : RateLimiter) : Type 0 where
  pub entries : Entries (InLimit rl.limit) rl.attempts
  pub distinct : Distinct rl.attempts
  pub named : lookup [] rl.attempts ≡ none
  pub bounded : length rl.attempts ≤ max_tracked_ips

-- The attempts of an address that are still in the window are no more than those stored.
length-attempts_of :
    (limit : ℕ) (ip : Bytes) (m : Table (List ℕ))
    → Entries (InLimit limit) m
    → length (attempts_of ip m) ≤ limit
length-attempts_of limit ip m v = elim (Option-cases (lookup ip m)) [
  | inl gone ↦ rw (gone, attempts_of) (omega arith)
  | inr (ts, held) ↦ rw (held, attempts_of) (lookup-Entries (InLimit limit) ip m ts v held).1
]

pub length-keep-zero :
    (ip : Bytes) (p : ℕ → Bool) (m : Table (List ℕ))
    → lookup ip m ≡ none
    → length (keep p (attempts_of ip m)) ≡ 0
length-keep-zero ip p m gone = rw (gone, attempts_of) refl

-- The map after the filter of one address's attempts.
record Kept (limit : ℕ) (ip : Bytes) (valid : List ℕ) (m : Table (List ℕ)) : Type 0 where
  entries : Entries (InLimit limit) m
  distinct : Distinct m
  named : lookup [] m ≡ none
  own : attempts_of ip m ≡ valid
  bounded : length m ≤ max_tracked_ips

store_valid-Kept :
    (limit : ℕ) (ip : Bytes) (valid : List ℕ) (m : Table (List ℕ))
    → Entries (InLimit limit) m
    → Distinct m
    → lookup [] m ≡ none
    → length m ≤ max_tracked_ips
    → length valid ≤ limit
    → (length valid ≢ 0 → lookup ip m ≢ none)
    → text_eq ip [] ≡ false
    → Kept limit ip valid (store_valid ip valid m)
store_valid-Kept limit ip [] m v d n b le present other = record {
  entries = delete-Entries (InLimit limit) ip m v;
  distinct = delete-Distinct ip m d;
  named = rw (lookup-delete ip [] m, other) n;
  own = rw (lookup-delete_self ip m, attempts_of) refl;
  bounded = omega (arith, length-delete-le ip m, b);
}
store_valid-Kept limit ip (x ∷ xs) m v d n b le present other = record {
  entries = assign-Entries (InLimit limit) ip (x ∷ xs) m (omega arith, le) v;
  distinct = assign-Distinct ip (x ∷ xs) m d;
  named = rw (lookup-assign ip [] (x ∷ xs) m, other) n;
  own = rw (lookup-assign_self ip (x ∷ xs) m, attempts_of) refl;
  bounded = omega (arith, length-assign_old ip (x ∷ xs) m (present (omega arith)), b);
}

drop_oldest-keeps :
    (limit : ℕ) (o : Oldest) (m : Table (List ℕ))
    → Entries (InLimit limit) m
    → Distinct m
    → lookup [] m ≡ none
    → Entries (InLimit limit) (drop_oldest o m)
      × Distinct (drop_oldest o m)
      × (lookup [] (drop_oldest o m) ≡ none)
unfolding drop_oldest
drop_oldest-keeps limit none m v d n = (v, d, n)
drop_oldest-keeps limit (some (k, t)) m v d n = elim (Bool-cases (text_eq k [])) [
  | inl empty ↦ rw empty (v, d, n)
  | inr full ↦ rw full (
    delete-Entries (InLimit limit) k m v,
    delete-Distinct k m d,
    rw (lookup-delete k [] m, full) n,
  )
]

-- The map after an admission.
admit-IsValid :
    (limit window now : ℕ) (ip : Bytes) (valid : List ℕ) (m : Table (List ℕ))
    → Kept limit ip valid m
    → length valid < limit
    → text_eq ip [] ≡ false
    → (m' : Table (List ℕ)) × (admit ip now valid m ≡ some m')
      × IsValid (record { attempts = m'; limit = limit; window = window })
      × (attempts_of ip m' ≡ valid ++ now ∷ [])
unfolding admit
admit-IsValid limit window now ip valid m k room other =
    let fits : InLimit limit ip (valid ++ now ∷ []) = (
      omega (arith, length-append valid (now ∷ [])),
      omega (arith, length-append valid (now ∷ [])),
    ) in
    elim (Bool-cases (leb max_tracked_ips (length m))) [
      | inr space ↦ (
        assign ip (valid ++ now ∷ []) m,
        rw space refl,
        record {
          entries = assign-Entries (InLimit limit) ip (valid ++ now ∷ []) m fits k.entries;
          distinct = assign-Distinct ip (valid ++ now ∷ []) m k.distinct;
          named = rw (lookup-assign ip [] (valid ++ now ∷ []) m, other) k.named;
          bounded = ground (arith, space, length-assign-le ip (valid ++ now ∷ []) m);
        },
        rw (lookup-assign_self ip (valid ++ now ∷ []) m, attempts_of) refl,
      )
      | inl full ↦
          let (m', ran, e) = evict_oldest-Evicted limit ip m k.entries k.distinct k.named in
          let (v', d', n') = drop_oldest-keeps limit e.oldest m k.entries k.distinct k.named in
          (
            assign ip (valid ++ now ∷ []) m',
            rw (full, ran) refl,
            record {
              entries =
                  assign-Entries (InLimit limit) ip (valid ++ now ∷ []) m' fits (rw e.removed v');
              distinct = assign-Distinct ip (valid ++ now ∷ []) m' (rw e.removed d');
              named = rw (lookup-assign ip [] (valid ++ now ∷ []) m', other) (rw e.removed n');
              bounded =
                  ground
                    (arith, full, k.bounded, e.shorter, length-assign-le ip (valid ++ now ∷ []) m');
            },
            rw (lookup-assign_self ip (valid ++ now ∷ []) m', attempts_of) refl,
          )
    ]

-- On a valid limiter, for a caller with an address, `allow` does not panic: it admits the attempt
-- exactly when fewer than the limit are stored in the window, then stores it behind those, and else
-- keeps those only. Afterwards every list is within the limit, no list is empty, and at most 100000
-- addresses are tracked.
pub allow-IsValid :
    (ip : Bytes) (now : ℕ) (rl : RateLimiter)
    → IsValid rl
    → text_eq ip [] ≡ false
    → (rl' : RateLimiter) × (admitted : Bool) × (allow ip now rl ≡ some (rl', admitted))
      × IsValid rl'
      × (admitted ≡ ltb (length (valid_attempts ip now rl)) rl.limit)
      × (attempts_of ip rl'.attempts
          ≡ (if admitted then valid_attempts ip now rl ++ now ∷ [] else valid_attempts ip now rl))
unfolding allow
allow-IsValid ip now rl v other =
    let valid : List ℕ = valid_attempts ip now rl in
    let le : length valid ≤ rl.limit = omega (
      arith,
      length-keep-le (in_window rl.window now) (attempts_of ip rl.attempts),
      length-attempts_of rl.limit ip rl.attempts v.entries,
    ) in
    let k =
      store_valid-Kept rl.limit ip valid rl.attempts v.entries v.distinct v.named v.bounded le
        (λ left gone. left (length-keep-zero ip (in_window rl.window now) rl.attempts gone))
        other in
    elim (Bool-cases (leb rl.limit (length valid))) [
      | inl full ↦ (
        record rl { attempts = store_valid ip valid rl.attempts },
        false,
        rw full refl,
        record { entries = k.entries; distinct = k.distinct; named = k.named; bounded = k.bounded },
        ground (arith, full),
        k.own,
      )
      | inr room ↦
          let (m', ran, v', own) =
            admit-IsValid rl.limit rl.window now ip valid (store_valid ip valid rl.attempts) k
              (ground (arith, room)) other in
          (record rl { attempts = m' }, true, rw (room, ran) refl, v', ground (arith, room), own)
    ]
