-- ===== src/Auth/Totp.antt =====
-- hub/internal/auth/totp_cache.go and totp.go: one-time codes that were used. Time is an argument of
-- each call, in nanoseconds. The check of a code against the secret is the library otp's, a parameter.
pub mod Replay
mod Tests
use aerodocs.Base.{
  ℕ, zero, suc, ◌+◌, ◌-◌, ◌*◌, ◌/◌, ◌%◌, ◌^◌, ◌≤◌, ◌<◌, ◌≡◌, refl, sym, ap, ◌∙◌, ◌≢◌, ◌↔◌, ◌⊎◌, inl,
  inr, Bool, true, false, not, ◌&&◌, ◌||◌, Option, none, some, List, [], ◌∷◌, ◌++◌, map, arith, ltb,
  leb, ◌==◌, ==_iff, if◌then◌else◌, Bool-cases, Option-cases, ◌>>=◌, length, length-append, take,
  drop, take-append-drop, length-take, length-drop, get_last?, keep, length-keep-le, any, All,
  All-append, All-keep, Bytes, text, text_eq, text_eq_refl, eq_of_text_eq, text_eq_iff,
  ne_of_text_eq, has_prefix, contains, has_prefix-append, eq_of_has_prefix, Lacks, split_unique,
  Table, lookup, delete, assign, Distinct, lookup-delete, lookup-assign, lookup-delete_self,
  lookup-assign_self, delete-Distinct, assign-Distinct, length-delete-le, length-delete-lt,
  length-assign-le, length-assign_old, delete_fresh, Entries, delete-Entries, assign-Entries,
  lookup-Entries, lookup-keep,
}

pub record TotpUsedCodes : Type 0 where
  pub codes : Table ℕ

unfoldable pub new_totp_used_codes : TotpUsedCodes
new_totp_used_codes = record { codes = [] }

-- `userID + ":" + code`.
unfoldable pub code_key : Bytes → Bytes → Bytes
code_key user code = user ++ b':' ∷ code

abbrev pub retention : ℕ
retention = 90000000000

-- `time.Since(t) > 90*time.Second`.
abbrev pub is_kept : ℕ → ℕ → Bool
is_kept now t = not (ltb (t + retention) now)

abbrev pub prune : ℕ → Table ℕ → Table ℕ
prune now m = keep (λ e. is_kept now e.1) m

unfoldable pub mark_used : Bytes → Bytes → ℕ → TotpUsedCodes → TotpUsedCodes
mark_used user code now c = record { codes = prune now (assign (code_key user code) now c.codes) }

abbrev pub holds : Option ℕ → Bool
holds none = false
holds (some t) = true

unfoldable pub was_used : Bytes → Bytes → TotpUsedCodes → Bool
was_used user code c = holds (lookup (code_key user code) c.codes)

-- The result is true for a fresh code.
unfoldable pub check_and_mark : Bytes → Bytes → ℕ → TotpUsedCodes → TotpUsedCodes × Bool
check_and_mark user code now c =
    if holds (lookup (code_key user code) c.codes)
    then (c, false)
    else (record { codes = prune now (assign (code_key user code) now c.codes) }, true)

unfoldable pub clear : TotpUsedCodes → TotpUsedCodes
clear c = record { codes = [] }

-- `is_valid` is `totp.Validate`, of a code and a secret.
unfoldable pub validate_totp_with_replay :
    (Bytes → Bytes → Bool)
    → Bytes
    → Bytes
    → Bytes
    → ℕ
    → Option TotpUsedCodes
    → Option TotpUsedCodes × Bool
unfolding check_and_mark
validate_totp_with_replay is_valid user secret code now none = (none, is_valid code secret)
validate_totp_with_replay is_valid user secret code now (some c) =
    if not (is_valid code secret)
    then (some c, false)
    else (let (c', fresh) = check_and_mark user code now c in (some c', fresh))
