-- ===== src/Auth/Blacklist/Laws.antt =====
-- A revoked token stays revoked.
use aerodocs.Auth.Blacklist.{
  TokenBlacklist, seconds, load_from_db, new_token_blacklist, delete_expired, write_db, cleanup,
  add, find_row, is_blacklisted,
}
use aerodocs.Base.{
  ℕ, ◌≤◌, ◌<◌, ◌≡◌, refl, ap, ◌∙◌, inl, inr, Bool, true, not, Option, none, some, List, [], ◌∷◌,
  arith, ltb, leb, Bool-cases, Option-cases, All, Bytes, text_eq, eq_of_text_eq, Table, lookup,
  assign, lookup-assign, lookup-assign_self, lookup-keep,
}

-- A call at a time, and whether the database answers it; a restart forgets the memory.
pub data Op : Type 0 where
  adds : Bytes → ℕ → ℕ → Bool → Op
  cleans : ℕ → Bool → Op
  asks : Bytes → ℕ → Bool → Op
  restarts : ℕ → Bool → Op

unfoldable pub step : TokenBlacklist → Op → TokenBlacklist
step b (adds jti expiry now works) = add jti expiry now works b
step b (cleans now works) = cleanup now works b
step b (asks jti now works) = (is_blacklisted jti now works b).0
step b (restarts now works) = new_token_blacklist now works b.db

unfoldable pub run : TokenBlacklist → List Op → TokenBlacklist
run b [] = b
run b (o ∷ os) = run (step b o) os

-- The call is before the second `limit`, and revokes the token only until that second or later.
abbrev pub Before : Bytes → ℕ → Op → Type 0
Before jti limit (adds j expiry now works) =
    (seconds now < limit) × (j ≡ jti → limit ≤ seconds expiry)
Before jti limit (cleans now works) = seconds now < limit
Before jti limit (asks j now works) = seconds now < limit
Before jti limit (restarts now works) = seconds now < limit

-- The table holds the token until the second `limit` or later.
abbrev Persisted : Bytes → ℕ → Option (Table ℕ) → Type 0
Persisted jti limit db =
    (rows : Table ℕ) × (db ≡ some rows) × ((s : ℕ) × (lookup jti rows ≡ some s) × (limit ≤ s))

load_from_db-db :
    (now : ℕ) (works : Bool) (b : TokenBlacklist) → (load_from_db now works b).db ≡ b.db
unfolding load_from_db
load_from_db-db now works b = elim (Option-cases b.db) [
  | inl gone ↦ rw (gone, load_from_db) gone
  | inr (rows, at) ↦ elim (Bool-cases works) [
    | inl yes_ ↦ rw (at, yes_, load_from_db) at
    | inr no_ ↦ rw (at, no_, load_from_db) at
  ]
]

find_row-db :
    (jti : Bytes) (now : ℕ) (rows : Table ℕ) (b : TokenBlacklist)
    → (find_row jti now rows b).0.db ≡ b.db
unfolding find_row
find_row-db jti now rows b = elim (Option-cases (lookup jti rows)) [
  | inl gone ↦ rw (gone, find_row) refl
  | inr (s, held) ↦ elim (Bool-cases (ltb (seconds now) s)) [
    | inl yes_ ↦ rw (held, yes_, find_row) refl
    | inr no_ ↦ rw (held, no_, find_row) refl
  ]
]

asks-db_fields :
    (jti : Bytes) (now : ℕ) (works : Bool) (entries : Table ℕ) (db : Option (Table ℕ))
    → (is_blacklisted jti now works (record { entries = entries; db = db })).0.db ≡ db
unfolding is_blacklisted
asks-db_fields jti now works entries none = elim (Option-cases (lookup jti entries)) [
  | inr (expiry, held) ↦ rw (held, is_blacklisted) refl
  | inl gone ↦ rw (gone, is_blacklisted) refl
]
asks-db_fields jti now works entries (some rows) = elim (Option-cases (lookup jti entries)) [
  | inr (expiry, held) ↦ rw (held, is_blacklisted) refl
  | inl gone ↦ elim (Bool-cases works) [
    | inr no_ ↦ rw (gone, no_, is_blacklisted) refl
    | inl yes_ ↦
        let b : TokenBlacklist = record { entries = entries; db = some rows } in
        rw (gone, yes_, is_blacklisted) (find_row-db jti now rows b)
  ]
]

asks-db :
    (jti : Bytes) (now : ℕ) (works : Bool) (b : TokenBlacklist)
    → (is_blacklisted jti now works b).0.db ≡ b.db
asks-db jti now works b = asks-db_fields jti now works b.entries b.db

written-Persisted :
    (jti j : Bytes) (limit expiry : ℕ) (works : Bool) (db : Option (Table ℕ))
    → (j ≡ jti → limit ≤ seconds expiry)
    → Persisted jti limit db
    → Persisted jti limit (write_db works (assign j (seconds expiry)) db)
written-Persisted jti j limit expiry works db later (rows, at, (s, held, le)) =
    elim (Bool-cases works) [
      | inr no_ ↦ (rows, rw (no_, at) refl, (s, held, le))
      | inl yes_ ↦
          let there = lookup-assign j jti (seconds expiry) rows in
          (
            assign j (seconds expiry) rows,
            rw (yes_, at) refl,
            elim (Bool-cases (text_eq j jti)) [
              | inl same ↦ (seconds expiry, rw (there, same) refl, later (eq_of_text_eq j jti same))
              | inr other ↦ (s, rw (there, other) held, le)
            ],
          )
    ]

deleted-Persisted :
    (jti : Bytes) (limit now : ℕ) (works : Bool) (db : Option (Table ℕ))
    → seconds now < limit
    → Persisted jti limit db
    → Persisted jti limit (write_db works (delete_expired now) db)
deleted-Persisted jti limit now works db early (rows, at, (s, held, le)) = elim (Bool-cases works) [
  | inr no_ ↦ (rows, rw (no_, at) refl, (s, held, le))
  | inl yes_ ↦ (
    delete_expired now rows,
    rw (yes_, at) refl,
    (
      s,
      lookup-keep jti (λ e. not (leb e (seconds now))) s rows held (ground (arith, early, le)),
      le,
    ),
  )
]

step-Persisted :
    (jti : Bytes) (limit : ℕ) (b : TokenBlacklist) (o : Op)
    → Before jti limit o
    → Persisted jti limit b.db
    → Persisted jti limit (step b o).db
unfolding step add cleanup new_token_blacklist
step-Persisted jti limit b (adds j expiry now works) h p =
    written-Persisted jti j limit expiry works b.db h.1 p
step-Persisted jti limit b (cleans now works) h p = deleted-Persisted jti limit now works b.db h p
step-Persisted jti limit b (asks j now works) h p = rw (asks-db j now works b) p
step-Persisted jti limit b (restarts now works) h p =
    rw (load_from_db-db now works (record { entries = []; db = b.db })) p

run-Persisted :
    (jti : Bytes) (limit : ℕ) (os : List Op) (b : TokenBlacklist)
    → All (Before jti limit) os
    → Persisted jti limit b.db
    → Persisted jti limit (run b os).db
unfolding run
run-Persisted jti limit [] b h p = p
run-Persisted jti limit (o ∷ os) b h p =
    run-Persisted jti limit os (step b o) h.1 (step-Persisted jti limit b o h.0 p)

found_fields :
    (jti : Bytes) (limit now s : ℕ) (entries rows : Table ℕ)
    → seconds now < limit
    → lookup jti rows ≡ some s
    → limit ≤ s
    → (is_blacklisted jti now true (record { entries = entries; db = some rows })).1 ≡ true
unfolding is_blacklisted find_row
found_fields jti limit now s entries rows early held le = elim (Option-cases (lookup jti entries)) [
  | inr (expiry, there) ↦ rw (there, is_blacklisted) refl
  | inl gone ↦
      let later : ltb (seconds now) s ≡ true = ground (arith, early, le) in
      let b : TokenBlacklist = record { entries = entries; db = some rows } in
      let row : (find_row jti now rows b).1 ≡ true = rw (held, later, find_row) refl in
      rw (gone, is_blacklisted) row
]

row_found :
    (jti : Bytes) (limit now : ℕ) (b : TokenBlacklist)
    → seconds now < limit
    → Persisted jti limit b.db
    → (is_blacklisted jti now true b).1 ≡ true
row_found jti limit now b early (rows, at, (s, held, le)) =
    ap (λ db. (is_blacklisted jti now true (record { entries = b.entries; db = db })).1) at
    ∙ found_fields jti limit now s b.entries rows early held le

-- A token that was revoked, with the database answering, counts as revoked whenever it is asked for, with
-- the database answering, before the second of its expiry, whatever was added, cleaned up, asked and
-- restarted meanwhile before that second, with or without the database, if no later call revoked it for
-- a shorter time.
pub revoked_stays :
    (jti : Bytes) (expiry start now : ℕ) (b : TokenBlacklist) (rows : Table ℕ) (os : List Op)
    → b.db ≡ some rows
    → All (Before jti (seconds expiry)) os
    → seconds now < seconds expiry
    → (is_blacklisted jti now true (run (add jti expiry start true b) os)).1 ≡ true
unfolding add
revoked_stays jti expiry start now b rows os at h early =
    let first : Persisted jti (seconds expiry) (add jti expiry start true b).db = (
      assign jti (seconds expiry) rows,
      rw at refl,
      (seconds expiry, lookup-assign_self jti (seconds expiry) rows, omega arith),
    ) in
    row_found jti (seconds expiry) now (run (add jti expiry start true b) os) early
      (run-Persisted jti (seconds expiry) os (add jti expiry start true b) h first)
