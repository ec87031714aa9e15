-- ===== src/Server/RateLimiter.antt =====
-- hub/internal/server/middleware.go: the limiter of login attempts per IP address. Time is an argument
-- of each call, in nanoseconds; `none` is a panic (an index below 0). The filter of expired attempts
-- writes into the array that it reads, always at or before the place read, so it is a plain filter.
pub mod Evict
pub mod Laws
pub mod Window
mod Tests
use aerodocs.Base.{
  ℕ, zero, suc, ◌+◌, ◌-◌, ◌*◌, ◌/◌, ◌%◌, ◌^◌, ◌≤◌, ◌<◌, ◌≡◌, refl, sym, ap, ◌∙◌, ◌≢◌, ◌↔◌, ◌⊎◌, inl,
  inr, Bool, true, false, not, ◌&&◌, ◌||◌, Option, none, some, List, [], ◌∷◌, ◌++◌, map, arith, ltb,
  leb, ◌==◌, ==_iff, if◌then◌else◌, Bool-cases, Option-cases, ◌>>=◌, length, length-append, take,
  drop, take-append-drop, length-take, length-drop, get_last?, keep, length-keep-le, any, All,
  All-append, All-keep, Bytes, text, text_eq, text_eq_refl, eq_of_text_eq, text_eq_iff,
  ne_of_text_eq, has_prefix, contains, has_prefix-append, eq_of_has_prefix, Lacks, split_unique,
  Table, lookup, delete, assign, Distinct, lookup-delete, lookup-assign, lookup-delete_self,
  lookup-assign_self, delete-Distinct, assign-Distinct, length-delete-le, length-delete-lt,
  length-assign-le, length-assign_old, delete_fresh, Entries, delete-Entries, assign-Entries,
  lookup-Entries,
}

pub record RateLimiter : Type 0 where
  pub attempts : Table (List ℕ)
  pub limit : ℕ
  pub window : ℕ

abbrev pub max_tracked_ips : ℕ
max_tracked_ips = 100000

unfoldable pub new_rate_limiter : ℕ → ℕ → RateLimiter
new_rate_limiter limit window = record { attempts = []; limit = limit; window = window }

-- The oldest key so far and its time; none before the first.
abbrev pub Oldest : Type 0
Oldest = Option (Bytes × ℕ)

unfoldable pub older : Bytes → ℕ → Oldest → Oldest
older k last none = some (k, last)
older k last (some (k', t)) = if ltb last t then some (k, last) else some (k', t)

-- One round of the loop of `evictOldest`.
unfoldable pub visit : Bytes → Bytes → List ℕ → Oldest → Option Oldest
unfolding older
visit skip_ip k attempts best =
    if text_eq k skip_ip then some best else get_last? attempts >>= λ last. some (older k last best)

unfoldable pub find_oldest : Bytes → Table (List ℕ) → Oldest → Option Oldest
unfolding visit
find_oldest skip_ip [] best = some best
find_oldest skip_ip ((k, attempts) ∷ m) best = do
  next ← visit skip_ip k attempts best
  find_oldest skip_ip m next

-- `if oldestKey != ""`, where no entry leaves the key empty too.
unfoldable pub drop_oldest : Oldest → Table (List ℕ) → Table (List ℕ)
drop_oldest none m = m
drop_oldest (some (k, t)) m = if text_eq k [] then m else delete k m

unfoldable pub evict_oldest : Bytes → Table (List ℕ) → Option (Table (List ℕ))
unfolding find_oldest drop_oldest
evict_oldest skip_ip m = do oldest ← find_oldest skip_ip m none; some (drop_oldest oldest m)

-- `t.After(now.Add(-rl.window))`.
abbrev pub in_window : ℕ → ℕ → ℕ → Bool
in_window window now t = ltb now (t + window)

abbrev pub attempts_of : Bytes → Table (List ℕ) → List ℕ
attempts_of ip m = elim (lookup ip m) [ none ↦ [] | some ts ↦ ts ]

abbrev pub valid_attempts : Bytes → ℕ → RateLimiter → List ℕ
valid_attempts ip now rl = keep (in_window rl.window now) (attempts_of ip rl.attempts)

-- No empty list is stored.
abbrev pub store_valid : Bytes → List ℕ → Table (List ℕ) → Table (List ℕ)
store_valid ip [] m = delete ip m
store_valid ip (t ∷ ts) m = assign ip (t ∷ ts) m

-- The part of `allow` below the test of the limit.
unfoldable pub admit : Bytes → ℕ → List ℕ → Table (List ℕ) → Option (Table (List ℕ))
admit ip now valid m = do
  m' ← if leb max_tracked_ips (length m) then evict_oldest ip m else some m
  some (assign ip (valid ++ now ∷ []) m')

unfoldable pub allow : Bytes → ℕ → RateLimiter → Option (RateLimiter × Bool)
unfolding admit
allow ip now rl =
    let valid = valid_attempts ip now rl in
    let kept = store_valid ip valid rl.attempts in
    if leb rl.limit (length valid)
    then some (record rl { attempts = kept }, false)
    else admit ip now valid kept >>= λ m. some (record rl { attempts = m }, true)
