-- ===== src/Server/LogSlots.antt =====
-- hub/internal/server/handlers_logs.go: how many log streams a user, and a server, may have at once.
-- The table `logTailSessions` counts the streams of a server and a user.
pub mod Laws
pub mod Release
mod Tests
use aerodocs.Base.{
  ℕ, zero, suc, ◌+◌, ◌-◌, ◌*◌, ◌/◌, ◌%◌, ◌^◌, ◌≤◌, ◌<◌, ◌≡◌, refl, sym, ap, ◌∙◌, ◌≢◌, ◌↔◌, ◌⊎◌, inl,
  inr, Bool, true, false, not, ◌&&◌, ◌||◌, Option, none, some, List, [], ◌∷◌, ◌++◌, map, arith, ltb,
  leb, ◌==◌, ==_iff, if◌then◌else◌, Bool-cases, Option-cases, ◌>>=◌, length, length-append, take,
  drop, take-append-drop, length-take, length-drop, get_last?, keep, length-keep-le, any, All,
  All-append, All-keep, Bytes, text, text_eq, text_eq_refl, eq_of_text_eq, text_eq_iff,
  ne_of_text_eq, has_prefix, contains, has_prefix-append, eq_of_has_prefix, Lacks, split_unique,
  Table, lookup, delete, assign, Distinct, lookup-delete, lookup-assign, lookup-delete_self,
  lookup-assign_self, delete-Distinct, assign-Distinct, length-delete-le, length-delete-lt,
  length-assign-le, length-assign_old, delete_fresh, Entries, delete-Entries, assign-Entries,
  lookup-Entries, lookup-keep,
}

abbrev pub max_viewer_log_streams_per_user : ℕ
max_viewer_log_streams_per_user = 5

abbrev pub max_admin_log_streams_per_user : ℕ
max_admin_log_streams_per_user = 10

abbrev pub max_agent_log_streams : ℕ
max_agent_log_streams = 50

-- `serverID + ":"`, and the key of a server and a user.
abbrev pub prefix_of : Bytes → Bytes
prefix_of server = server ++ 58 ∷ []

abbrev pub slot_key : Bytes → Bytes → Bytes
slot_key server user = server ++ 58 ∷ user

abbrev pub is_admin : Bytes → Bool
is_admin role = text_eq role (text "admin")

abbrev pub or_zero : Option ℕ → ℕ
or_zero none = 0
or_zero (some n) = n

-- `s.logTailSessions[key]`, which is 0 for a missing key.
abbrev pub count_of : Bytes → Table ℕ → ℕ
count_of key m = or_zero (lookup key m)

unfoldable pub total_for_server : Bytes → Bytes → Table ℕ → ℕ
total_for_server key prefix [] = 0
total_for_server key prefix ((k, count) ∷ m) =
    let rest = total_for_server key prefix m in
    if text_eq k key || has_prefix k prefix then count + rest else rest

unfoldable pub try_acquire_log_tail_slot : Bytes → Bytes → Bytes → Table ℕ → Table ℕ × Bool
try_acquire_log_tail_slot server user role m =
    let limit =
      if is_admin role then max_admin_log_streams_per_user else max_viewer_log_streams_per_user in
    let total = total_for_server (slot_key server user) (prefix_of server) m in
    let most =
      if is_admin role
      then max_agent_log_streams
      else max_agent_log_streams - max_admin_log_streams_per_user in
    if leb most total
    then (m, false)
    else if leb limit (count_of (slot_key server user) m)
    then (m, false)
    else (assign (slot_key server user) (suc (count_of (slot_key server user) m)) m, true)

unfoldable pub release_log_tail_slot : Bytes → Bytes → Table ℕ → Table ℕ
release_log_tail_slot server user m =
    let key = slot_key server user in
    if leb (count_of key m) 1 then delete key m else assign key (count_of key m - 1) m
