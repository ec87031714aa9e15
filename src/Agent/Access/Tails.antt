-- ===== src/Agent/Access/Tails.antt =====
-- The stop channels of the log tails.
use mathlib.Core.Path.{subst}
use aerodocs.Agent.Access.{
  max_tail_sessions, is_path_allowed, resolve_agent_path, TailSessions, handle_log_stream_request,
  handle_log_stream_stop,
}
use aerodocs.Base.{
  ℕ, suc, ◌≤◌, ◌<◌, ◌≡◌, refl, sym, ◌≢◌, inl, inr, Option, some, List, [], ◌∷◌, arith, leb,
  Bool-cases, Option-cases, length, All, Bytes, text_eq, Table, lookup, delete, assign,
  length-delete-le, Entries, delete-Entries, lookup-Entries,
}

-- The channels of two sessions differ.
abbrev pub Apart : Table ℕ → Type 0
Apart [] = Unit
Apart ((k, c) ∷ m) = Entries (λ j d. d ≢ c) m × Apart m

-- Every session in the table has a channel of its own that was not closed, no channel was closed twice,
-- and the table has at most 50 sessions.
abbrev pub Once : List ℕ → Type 0
Once [] = Unit
Once (c ∷ cs) = All (λ d. d ≢ c) cs × Once cs

pub record IsValid (t : TailSessions) : Type 0 where
  pub few : length t.sessions ≤ max_tail_sessions
  pub apart : Apart t.sessions
  pub started : Entries (λ k c. c < t.next) t.sessions
  pub unclosed : Entries (λ k c. All (λ d. d ≢ c) t.closed) t.sessions
  pub past : All (λ d. d < t.next) t.closed
  pub once : Once t.closed

pub data Op : Type 0 where
  streams : Bytes → Bytes → Op
  stops : Bytes → Op

module _ (eval_symlinks : Bytes → Option Bytes) (dropzone_dir : Bytes)
    (allowed_paths : List Bytes) where
  unfoldable pub step : TailSessions → Op → TailSessions
  step t (streams request_id path) =
      (handle_log_stream_request eval_symlinks dropzone_dir allowed_paths request_id path t).0
  step t (stops request_id) = handle_log_stream_stop request_id t

  unfoldable pub run : TailSessions → List Op → TailSessions
  run t [] = t
  run t (o ∷ os) = run (step t o) os

module _ (P Q : Bytes → ℕ → Type 0) (f : (k : Bytes) (c : ℕ) → P k c → Q k c) where
  Entries-map : (m : Table ℕ) → Entries P m → Entries Q m
  Entries-map [] h = tt
  Entries-map ((k, c) ∷ m) h = (f k c h.0, Entries-map m h.1)

All-map : (P Q : ℕ → Type 0) → ((c : ℕ) → P c → Q c) → (cs : List ℕ) → All P cs → All Q cs
All-map P Q f [] h = tt
All-map P Q f (c ∷ cs) h = (f c h.0, All-map P Q f cs h.1)

delete-Apart : (k : Bytes) (m : Table ℕ) → Apart m → Apart (delete k m)
unfolding delete
delete-Apart k [] h = tt
delete-Apart k ((j, c) ∷ m) h = elim (Bool-cases (text_eq j k)) [
  | inl same ↦ rw same (delete-Apart k m h.1)
  | inr other ↦ rw other (delete-Entries (λ i d. d ≢ c) k m h.0, delete-Apart k m h.1)
]

-- The channel of a session is the channel of no other.
others_differ :
    (k : Bytes) (c : ℕ) (m : Table ℕ)
    → Apart m
    → lookup k m ≡ some c
    → Entries (λ j d. d ≢ c) (delete k m)
unfolding delete lookup
others_differ k c [] h held = tt
others_differ k c ((j, v) ∷ m) h held = elim (Bool-cases (text_eq j k)) [
  | inl same ↦
      let eq : v ≡ c = ground (arith, held, same) in
      rw same (delete-Entries (λ i d. d ≢ c) k m (rw (← eq) h.0))
  | inr other ↦
      let there : lookup k m ≡ some c = ground (arith, held, other) in
      let differs = lookup-Entries (λ i d. d ≢ v) k m c h.0 there in
      rw other ((λ e. differs (sym e)), others_differ k c m h.1 there)
]

start-IsValid :
    (request_id : Bytes) (t : TailSessions)
    → suc (length t.sessions) ≤ max_tail_sessions
    → IsValid t
    → IsValid (record t { sessions = assign request_id t.next t.sessions; next = suc t.next })
unfolding assign
start-IsValid request_id t room v =
    let rest = delete request_id t.sessions in
    let started = delete-Entries (λ k c. c < t.next) request_id t.sessions v.started in
    record {
      few = omega (arith, length-delete-le request_id t.sessions, room);
      apart = (
        Entries-map (λ k c. c < t.next) (λ k c. c ≢ t.next) (λ k c h e. omega (arith, h, e)) rest
            started,
        delete-Apart request_id t.sessions v.apart,
      );
      started = (
        omega arith,
        Entries-map (λ k c. c < t.next) (λ k c. c < suc t.next) (λ k c h. omega (arith, h)) rest
            started,
      );
      unclosed = (
        All-map (λ d. d < t.next) (λ d. d ≢ t.next) (λ d h e. omega (arith, h, e)) t.closed v.past,
        delete-Entries (λ k c. All (λ d. d ≢ c) t.closed) request_id t.sessions v.unclosed,
      );
      past =
          All-map (λ d. d < t.next) (λ d. d < suc t.next) (λ d h. omega (arith, h)) t.closed v.past;
      once = v.once;
    }

module _ (c : ℕ) (closed : List ℕ) where
  both_differ :
      (m : Table ℕ)
      → Entries (λ k d. All (λ x. x ≢ d) closed) m
      → Entries (λ k d. d ≢ c) m
      → Entries (λ k d. All (λ x. x ≢ d) (c ∷ closed)) m
  both_differ [] h k = tt
  both_differ ((j, d) ∷ m) h k = (((λ e. k.0 (sym e)), h.0), both_differ m h.1 k.1)

stop-IsValid :
    (request_id : Bytes) (t : TailSessions)
    → IsValid t
    → IsValid (handle_log_stream_stop request_id t)
unfolding handle_log_stream_stop
stop-IsValid request_id t v = elim (Option-cases (lookup request_id t.sessions)) [
  | inl gone ↦
      let value : handle_log_stream_stop request_id t ≡ t =
        rw (gone, handle_log_stream_stop) refl in
      rw value v
  | inr (c, held) ↦
      let t' = record t { sessions = delete request_id t.sessions; closed = c ∷ t.closed } in
      let value : handle_log_stream_stop request_id t ≡ t' =
        rw (held, handle_log_stream_stop) refl in
      let mine =
        lookup-Entries (λ k d. All (λ x. x ≢ d) t.closed) request_id t.sessions c v.unclosed held in
      let below = lookup-Entries (λ k d. d < t.next) request_id t.sessions c v.started held in
      rw value (record {
        few = omega (arith, length-delete-le request_id t.sessions, v.few);
        apart = delete-Apart request_id t.sessions v.apart;
        started = delete-Entries (λ k d. d < t.next) request_id t.sessions v.started;
        unclosed =
            both_differ c t.closed (delete request_id t.sessions)
              (delete-Entries (λ k d. All (λ x. x ≢ d) t.closed) request_id t.sessions v.unclosed)
              (others_differ request_id c t.sessions v.apart held);
        past = (below, v.past);
        once = (mine, v.once);
      })
]

step-IsValid :
    (eval_symlinks : Bytes → Option Bytes) (dropzone_dir : Bytes) (allowed_paths : List Bytes)
    (t : TailSessions) (o : Op)
    → IsValid t
    → IsValid (step eval_symlinks dropzone_dir allowed_paths t o)
unfolding step handle_log_stream_request
step-IsValid eval_symlinks dropzone_dir allowed_paths t (stops request_id) v =
    stop-IsValid request_id t v
step-IsValid eval_symlinks dropzone_dir allowed_paths t (streams request_id path) v =
    let answer =
      handle_log_stream_request eval_symlinks dropzone_dir allowed_paths request_id path t in
    let t' = record t { sessions = assign request_id t.next t.sessions; next = suc t.next } in
    elim (Bool-cases
      (is_path_allowed eval_symlinks (resolve_agent_path dropzone_dir path) allowed_paths)) [
        | inr no_ ↦
            let value : answer.0 ≡ t = rw (no_, handle_log_stream_request) refl in
            subst IsValid (sym value) v
        | inl yes_ ↦ elim (Bool-cases (leb max_tail_sessions (length t.sessions))) [
          | inl full ↦
              let value : answer.0 ≡ t = rw (yes_, full, handle_log_stream_request) refl in
              subst IsValid (sym value) v
          | inr room ↦
              let value : answer.0 ≡ t' = rw (yes_, room, handle_log_stream_request) refl in
              subst IsValid (sym value) (start-IsValid request_id t (ground arith) v)
        ]
      ]

run-keeps :
    (eval_symlinks : Bytes → Option Bytes) (dropzone_dir : Bytes) (allowed_paths : List Bytes)
    (os : List Op) (t : TailSessions)
    → IsValid t
    → IsValid (run eval_symlinks dropzone_dir allowed_paths t os)
unfolding run
run-keeps eval_symlinks dropzone_dir allowed_paths [] t v = v
run-keeps eval_symlinks dropzone_dir allowed_paths (o ∷ os) t v =
    run-keeps eval_symlinks dropzone_dir allowed_paths os
      (step eval_symlinks dropzone_dir allowed_paths t o)
      (step-IsValid eval_symlinks dropzone_dir allowed_paths t o v)

abbrev pub no_tails : TailSessions
no_tails = record { sessions = []; next = 0; closed = [] }

-- The table of a new agent is sound, whatever is asked for and stopped.
pub tail_sessions-IsValid :
    (eval_symlinks : Bytes → Option Bytes) (dropzone_dir : Bytes) (allowed_paths : List Bytes)
    (os : List Op)
    → IsValid (run eval_symlinks dropzone_dir allowed_paths no_tails os)
tail_sessions-IsValid eval_symlinks dropzone_dir allowed_paths os =
    run-keeps eval_symlinks dropzone_dir allowed_paths os no_tails
      (record { few = omega arith; apart = tt; started = tt; unclosed = tt; past = tt; once = tt })
