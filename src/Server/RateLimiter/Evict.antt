-- ===== src/Server/RateLimiter/Evict.antt =====
-- `evictOldest` removes the entry with the oldest last attempt.
use aerodocs.Server.RateLimiter.{Oldest, older, visit, find_oldest, drop_oldest, evict_oldest}
use aerodocs.Base.{
  ℕ, suc, ◌≤◌, ◌<◌, ◌≡◌, refl, ◌∙◌, ◌≢◌, ◌⊎◌, inl, inr, true, false, none, some, List, [], ◌∷◌,
  arith, ltb, Bool-cases, length, get_last?, Bytes, text_eq, text_eq_refl, eq_of_text_eq,
  text_eq_iff, Table, lookup, delete, Distinct, lookup-delete, length-delete-le, length-delete-lt,
  Entries,
}

-- An entry holds an attempt, and no more attempts than the limit.
abbrev pub InLimit : ℕ → Bytes → List ℕ → Type 0
InLimit limit ip ts = (0 < length ts) × (length ts ≤ limit)

get_last?-some : (ts : List ℕ) → 0 < length ts → (t : ℕ) × (get_last? ts ≡ some t)
get_last?-some [] h = absurd (omega arith)
get_last?-some (x ∷ []) h = (x, refl)
get_last?-some (x ∷ y ∷ ys) h = get_last?-some (y ∷ ys) (omega arith)

-- The entry is the skipped one, or its last attempt is no older than the one found.
abbrev pub NoOlder : Bytes → Oldest → Bytes → List ℕ → Type 0
NoOlder skip_ip o j ts =
    (text_eq j skip_ip ≡ true)
    ⊎ ((l : ℕ) × (k : Bytes) × (t : ℕ) × (get_last? ts ≡ some l) × (o ≡ some (k, t)) × (t ≤ l))

abbrev AtMost : Oldest → Oldest → Type 0
AtMost none o = Unit
AtMost (some (k, t)) o = (k' : Bytes) × (t' : ℕ) × (o ≡ some (k', t')) × (t' ≤ t)

AtMost-refl : (o : Oldest) → AtMost o o
AtMost-refl none = tt
AtMost-refl (some (k, t)) = (k, t, refl, omega arith)

abbrev pub Chosen : Bytes → Table (List ℕ) → Oldest → Type 0
Chosen skip_ip m o =
    (k : Bytes) × (t : ℕ) × (o ≡ some (k, t)) × (lookup k m ≢ none) × (text_eq k skip_ip ≡ false)

record Outcome (skip_ip : Bytes) (m : Table (List ℕ)) (best o : Oldest) : Type 0 where
  origin : (o ≡ best) ⊎ Chosen skip_ip m o
  at_most : AtMost best o
  minimal : Entries (NoOlder skip_ip o) m

Chosen-cons :
    (skip_ip j : Bytes) (ts : List ℕ) (m : Table (List ℕ)) (o : Oldest)
    → Chosen skip_ip m o
    → Chosen skip_ip ((j, ts) ∷ m) o
unfolding lookup
Chosen-cons skip_ip j ts m o (k, t, e, held, other) = (
  k,
  t,
  e,
  elim (Bool-cases (text_eq j k)) [
    | inl here ↦ λ gone. ground (arith, gone, here)
    | inr there ↦ λ gone. held (rw there at gone)
  ],
  other,
)

-- One step of the search keeps the older of the two.
older-step :
    (j : Bytes) (l : ℕ) (best : Oldest)
    → ((older j l best ≡ best) ⊎ (older j l best ≡ some (j, l)))
      × AtMost best (older j l best)
      × ((k : Bytes) × (t : ℕ) × (older j l best ≡ some (k, t)) × (t ≤ l))
unfolding older
older-step j l none = (inr refl, tt, (j, l, refl, omega arith))
older-step j l (some (k, t)) = elim (Bool-cases (ltb l t)) [
  | inl newer ↦ rw newer (inr refl, (j, l, refl, ground (arith, newer)), (j, l, refl, omega arith))
  | inr same ↦ rw same (inl refl, (k, t, refl, omega arith), (k, t, refl, ground (arith, same)))
]

AtMost-trans : (a b c : Oldest) → AtMost a b → AtMost b c → AtMost a c
AtMost-trans none b c h k = tt
AtMost-trans (some (x, t)) none c (x', t', e, le) k = absurd (ground (arith, e))
AtMost-trans (some (x, t)) (some (y, u)) c (x', t', e, le) (z, w, e', le') =
    (z, w, e', ground (arith, e, le, le'))

AtMost-at :
    (a b : Oldest) (k : Bytes) (t : ℕ)
    → AtMost a b
    → a ≡ some (k, t)
    → (k' : Bytes) × (t' : ℕ) × (b ≡ some (k', t')) × (t' ≤ t)
AtMost-at none b k t h e = absurd (ground (arith, e))
AtMost-at (some (x, u)) b k t (k', t', found, le) e = (k', t', found, ground (arith, e, le))

-- An entry that is not skipped is compared with the best one so far.
Outcome-cons :
    (skip_ip j : Bytes) (ts : List ℕ) (l : ℕ) (m : Table (List ℕ)) (best o : Oldest)
    → text_eq j skip_ip ≡ false
    → get_last? ts ≡ some l
    → Outcome skip_ip m (older j l best) o
    → Outcome skip_ip ((j, ts) ∷ m) best o
unfolding lookup
Outcome-cons skip_ip j ts l m best o seen last out =
    let (from, down, (k, t, named, le)) = older-step j l best in
    let (k', t', found, le') = AtMost-at (older j l best) o k t out.at_most named in
    record {
      origin = elim out.origin [
        | inr chosen ↦ inr (Chosen-cons skip_ip j ts m o chosen)
        | inl same ↦ elim from [
          | inl old ↦ inl (same ∙ old)
          | inr new ↦ inr (j, l, same ∙ new, (λ gone. ground (arith, gone, text_eq_refl j)), seen)
        ]
      ];
      at_most = AtMost-trans best (older j l best) o down out.at_most;
      minimal = (inr (l, k', t', last, found, omega arith), out.minimal);
    }

find_oldest-Outcome :
    (limit : ℕ) (skip_ip : Bytes) (m : Table (List ℕ)) (best : Oldest)
    → Entries (InLimit limit) m
    → (o : Oldest) × (find_oldest skip_ip m best ≡ some o) × Outcome skip_ip m best o
unfolding find_oldest visit
find_oldest-Outcome limit skip_ip [] best v =
    (best, refl, record { origin = inl refl; at_most = AtMost-refl best; minimal = tt })
find_oldest-Outcome limit skip_ip ((j, ts) ∷ m) best v = elim (Bool-cases (text_eq j skip_ip)) [
  | inl skipped ↦
      let (o, ran, out) = find_oldest-Outcome limit skip_ip m best v.1 in
      (
        o,
        rw skipped ran,
        record {
          origin = elim out.origin [
            | inl same ↦ inl same
            | inr chosen ↦ inr (Chosen-cons skip_ip j ts m o chosen)
          ];
          at_most = out.at_most;
          minimal = (inl skipped, out.minimal);
        },
      )
  | inr seen ↦
      let (l, last) = get_last?-some ts v.0.0 in
      let (o, ran, out) = find_oldest-Outcome limit skip_ip m (older j l best) v.1 in
      (o, rw (seen, last) ran, Outcome-cons skip_ip j ts l m best o seen last out)
]

-- With every key skipped there is one entry at most.
length-skipped :
    (skip_ip : Bytes) (m : Table (List ℕ))
    → Distinct m
    → Entries (NoOlder skip_ip none) m
    → length m ≤ 1
unfolding lookup
length-skipped skip_ip [] d v = omega arith
length-skipped skip_ip ((j, ts) ∷ []) d v = omega arith
length-skipped skip_ip ((j, ts) ∷ (k, us) ∷ m) d v =
    absurd (
      ground
        (arith, v.0, v.1.0, d.0, text_eq_iff j skip_ip, text_eq_iff k skip_ip, text_eq_iff k j))

-- What `evictOldest` leaves of a map with no empty key: it does not panic; with two entries or more
-- it removes exactly one, never the skipped one, and no other entry's last attempt is older.
pub record Evicted (skip_ip : Bytes) (m m' : Table (List ℕ)) : Type 0 where
  pub oldest : Oldest
  pub removed : m' ≡ drop_oldest oldest m
  pub minimal : Entries (NoOlder skip_ip oldest) m
  pub kept : lookup skip_ip m' ≡ lookup skip_ip m
  pub not_longer : length m' ≤ length m
  pub shorter : (length m ≤ 1) ⊎ (suc (length m') ≤ length m)

-- Where every entry has attempts and an address, and no address stands twice: eviction does not panic,
-- it removes at most one entry, the one whose last attempt is oldest, never the caller's own, and it does
-- remove one if there are two or more.
pub evict_oldest-Evicted :
    (limit : ℕ) (skip_ip : Bytes) (m : Table (List ℕ))
    → Entries (InLimit limit) m
    → Distinct m
    → lookup [] m ≡ none
    → (m' : Table (List ℕ)) × (evict_oldest skip_ip m ≡ some m') × Evicted skip_ip m m'
unfolding evict_oldest drop_oldest
evict_oldest-Evicted limit skip_ip m v d named =
    let (o, ran, out) = find_oldest-Outcome limit skip_ip m none v in
    elim out.origin [
      | inl nobody ↦ (
        m,
        rw (ran, nobody) refl,
        record {
          oldest = none;
          removed = refl;
          minimal = rw nobody at out.minimal;
          kept = refl;
          not_longer = omega arith;
          shorter = inl (length-skipped skip_ip m d (rw nobody at out.minimal));
        },
      )
      | inr (k, t, chosen, held, other) ↦
          let nonempty : text_eq k [] ≡ false = elim (Bool-cases (text_eq k [])) [
            | inl empty ↦ absurd (held (rw (eq_of_text_eq k [] empty) named))
            | inr named_key ↦ named_key
          ] in
          (
            delete k m,
            rw (ran, chosen, nonempty) refl,
            record {
              oldest = some (k, t);
              removed = rw nonempty refl;
              minimal = rw chosen at out.minimal;
              kept = rw (lookup-delete k skip_ip m, other) refl;
              not_longer = length-delete-le k m;
              shorter = inr (length-delete-lt k m held);
            },
          )
    ]
