-- ===== src/Auth/Blacklist.antt =====
-- hub/internal/auth/blacklist.go: the ids of revoked tokens, in memory with the time of expiry in
-- nanoseconds, and in the table token_blacklist with the time in seconds. The time of a call, and
-- whether the database answers it, are arguments; without a database the table is none. A time that
-- is read back is in the layout in which it was written.
pub mod Laws
mod Tests
use aerodocs.Base.{
  ℕ, ◌*◌, ◌/◌, Bool, true, false, not, Option, none, some, [], ◌∷◌, ltb, leb, if◌then◌else◌, length,
  keep, Bytes, Table, lookup, assign,
}

pub record TokenBlacklist : Type 0 where
  pub entries : Table ℕ
  pub db : Option (Table ℕ)

abbrev pub seconds : ℕ → ℕ
seconds t = t / 1000000000

-- `SELECT jti, expires_at FROM token_blacklist WHERE expires_at > datetime('now')`, into memory.
unfoldable pub load_rows : ℕ → Table ℕ → Table ℕ → Table ℕ
load_rows now [] entries = entries
load_rows now ((jti, s) ∷ rows) entries =
    if ltb (seconds now) s
    then load_rows now rows (assign jti (s * 1000000000) entries)
    else load_rows now rows entries

unfoldable pub load_from_db : ℕ → Bool → TokenBlacklist → TokenBlacklist
unfolding load_rows
load_from_db now works b = elim b.db [
  | none ↦ b
  | some rows ↦ if works then record b { entries = load_rows now rows b.entries } else b
]

unfoldable pub new_token_blacklist : ℕ → Bool → Option (Table ℕ) → TokenBlacklist
unfolding load_from_db
new_token_blacklist now works db = load_from_db now works (record { entries = []; db = db })

-- `if now.After(exp) { delete(b.entries, k) }`, for every entry.
abbrev pub unexpired : ℕ → Table ℕ → Table ℕ
unexpired now m = keep (λ e. not (ltb e.1 now)) m

-- `DELETE FROM token_blacklist WHERE expires_at <= datetime('now')`.
abbrev pub delete_expired : ℕ → Table ℕ → Table ℕ
delete_expired now rows = keep (λ e. not (leb e.1 (seconds now))) rows

abbrev pub write_db : Bool → (Table ℕ → Table ℕ) → Option (Table ℕ) → Option (Table ℕ)
write_db works f none = none
write_db works f (some rows) = if works then some (f rows) else some rows

unfoldable pub cleanup : ℕ → Bool → TokenBlacklist → TokenBlacklist
cleanup now works b = record {
  entries = unexpired now b.entries;
  db = write_db works (delete_expired now) b.db;
}

-- `INSERT OR REPLACE` is an assignment of the row.
unfoldable pub add : Bytes → ℕ → ℕ → Bool → TokenBlacklist → TokenBlacklist
add jti expiry now works b = record {
  entries = unexpired now (assign jti expiry b.entries);
  db = write_db works (assign jti (seconds expiry)) b.db;
}

-- The fallback of `IsBlacklisted` to the table.
unfoldable pub find_row : Bytes → ℕ → Table ℕ → TokenBlacklist → TokenBlacklist × Bool
find_row jti now rows b = elim (lookup jti rows) [
  | none ↦ (b, false)
  | some s ↦
      if ltb (seconds now) s
      then (record b { entries = assign jti (s * 1000000000) b.entries }, true)
      else (b, false)
]

unfoldable pub is_blacklisted : Bytes → ℕ → Bool → TokenBlacklist → TokenBlacklist × Bool
unfolding find_row
is_blacklisted jti now works b = elim (lookup jti b.entries) [
  | some expiry ↦ (b, true)
  | none ↦ elim b.db [
    | none ↦ (b, false)
    | some rows ↦ if works then find_row jti now rows b else (b, false)
  ]
]

unfoldable pub len : TokenBlacklist → ℕ
len b = length b.entries
