-- ===== src/Grpc/LogSessions.antt =====
-- hub/internal/grpcserver/logsessions.go: log streams on their way to a browser. A session's channel
-- holds 64 chunks; what does not fit is counted, and the reader fetches the count. `none` is a
-- panic. The reader's own reference to a channel that `Remove` has closed is not kept.
pub mod Laws
pub mod Delivery
pub mod Accounting
mod Tests
use aerodocs.Channel.{Chan, make_chan, try_send, close, receive}
use aerodocs.Grpc.Key.{make_key}
use aerodocs.Base.{
  ℕ, zero, suc, ◌+◌, ◌-◌, ◌*◌, ◌/◌, ◌%◌, ◌^◌, ◌≤◌, ◌<◌, ◌≡◌, refl, sym, ap, ◌∙◌, ◌≢◌, ◌↔◌, ◌⊎◌, inl,
  inr, Bool, true, false, not, ◌&&◌, ◌||◌, Option, none, some, List, [], ◌∷◌, ◌++◌, map, arith, ltb,
  leb, ◌==◌, ==_iff, if◌then◌else◌, Bool-cases, Option-cases, ◌>>=◌, length, length-append, take,
  drop, take-append-drop, length-take, length-drop, get_last?, keep, length-keep-le, any, All,
  All-append, All-keep, Bytes, text, text_eq, text_eq_refl, eq_of_text_eq, text_eq_iff, has_prefix,
  contains, has_prefix-append, eq_of_has_prefix, Lacks, split_unique, Table, lookup, delete, assign,
  Distinct, lookup-delete, lookup-assign, lookup-delete_self, lookup-assign_self, delete-Distinct,
  assign-Distinct, length-delete-le, length-delete-lt, length-assign-le, length-assign_old,
  delete_fresh, Entries, delete-Entries, assign-Entries, lookup-Entries,
}

pub record LogSessions : Type 0 where
  pub channels : Table (Chan Bytes)
  pub overflow : Table ℕ

unfoldable pub new_log_sessions : LogSessions
new_log_sessions = record { channels = []; overflow = [] }

unfoldable pub register : Bytes → Bytes → LogSessions → LogSessions
unfolding make_chan
register server request ls = record {
  channels = assign (make_key server request) (make_chan 64) ls.channels;
  overflow = assign (make_key server request) 0 ls.overflow;
}

-- `ls.overflow[key]`: 0 if the key is missing.
abbrev pub count_at : Bytes → Table ℕ → ℕ
count_at key m = elim (lookup key m) [ none ↦ 0 | some n ↦ n ]

pub count_at-assign : (key : Bytes) (n : ℕ) (m : Table ℕ) → count_at key (assign key n m) ≡ n
count_at-assign key n m = rw (lookup-assign_self key n m, count_at) refl

-- `ls.overflow[key]++` on a uint64.
bump : Bytes → Table ℕ → Table ℕ
bump key m = assign key ((count_at key m + 1) % 2 ^ 64) m

after_send : Bytes → Chan Bytes × Bool → LogSessions → LogSessions × Bool
unfolding bump
after_send key (ch, true) ls = (record ls { channels = assign key ch ls.channels }, true)
after_send key (ch, false) ls = (record ls { overflow = bump key ls.overflow }, false)

send_to : Bytes → Option (Chan Bytes) → Bytes → LogSessions → Option (LogSessions × Bool)
unfolding try_send after_send
send_to key none chunk ls = some (ls, false)
send_to key (some ch) chunk ls = do sent ← try_send ch chunk; some (after_send key sent ls)

unfoldable pub deliver : Bytes → Bytes → Bytes → LogSessions → Option (LogSessions × Bool)
unfolding send_to
deliver server request chunk ls =
    send_to (make_key server request) (lookup (make_key server request) ls.channels) chunk ls

unfoldable pub drain_overflow : Bytes → Bytes → LogSessions → LogSessions × ℕ
drain_overflow server request ls =
    let key = make_key server request in
    let n = count_at key ls.overflow in
    (if ltb 0 n then record ls { overflow = assign key 0 ls.overflow } else ls, n)

remove_at : Bytes → Option (Chan Bytes) → LogSessions → Option LogSessions
unfolding close
remove_at key none ls = some ls
remove_at key (some ch) ls = do
  closed ← close ch
  some (record { channels = delete key ls.channels; overflow = delete key ls.overflow })

unfoldable pub remove : Bytes → Bytes → LogSessions → Option LogSessions
unfolding remove_at
remove server request ls =
    remove_at (make_key server request) (lookup (make_key server request) ls.channels) ls

read_at : Bytes → Option (Chan Bytes) → LogSessions → LogSessions × Option Bytes
unfolding receive
read_at key none ls = (ls, none)
read_at key (some ch) ls =
    let (ch', chunk) = receive ch in (record ls { channels = assign key ch' ls.channels }, chunk)

-- `<-ch` in the stream loop of `handleTailLog`.
unfoldable pub read : Bytes → Bytes → LogSessions → LogSessions × Option Bytes
unfolding read_at
read server request ls =
    read_at (make_key server request) (lookup (make_key server request) ls.channels) ls
