-- ===== src/Agent/Access/Lost.antt =====
-- The log tails that run, whether the table of stop channels has them or not.
use aerodocs.Agent.Access.{
  max_tail_sessions, is_path_allowed, resolve_agent_path, TailSessions, TailStart, reports, starts,
  handle_log_stream_request, handle_log_stream_stop,
}
use aerodocs.Agent.Access.Tails.{
  IsValid, Op, streams, stops, step, run, no_tails, tail_sessions-IsValid,
}
use aerodocs.Base.{
  ℕ, suc, ◌+◌, ◌≡◌, refl, ◌⊎◌, inl, inr, Option, none, some, List, [], ◌∷◌, arith, leb, Bool-cases,
  Option-cases, length, Bytes, text, text_eq, eq_of_text_eq, Table, lookup, delete, assign,
  Distinct, delete-Distinct, assign-Distinct, delete_fresh,
}

-- One tail is lost when a tail is started under the id of one in the table: the earlier tail goes on
-- and the table has its channel no more.
abbrev pub lost : Option ℕ → TailStart → ℕ
lost (some c) (starts path stop) = 1
lost _ _ = 0

module _ (eval_symlinks : Bytes → Option Bytes) (dropzone_dir : Bytes)
    (allowed_paths : List Bytes) where
  abbrev pub step_lost : TailSessions → Op → ℕ
  step_lost t (streams request_id path) =
      lost (lookup request_id t.sessions)
        (handle_log_stream_request eval_symlinks dropzone_dir allowed_paths request_id path t).1
  step_lost t (stops request_id) = 0

  abbrev pub run_lost : TailSessions → List Op → ℕ
  run_lost t [] = 0
  run_lost t (o ∷ os) =
      step_lost t o + run_lost (step eval_symlinks dropzone_dir allowed_paths t o) os

length-delete_held :
    (k : Bytes) (c : ℕ) (m : Table ℕ)
    → Distinct m
    → lookup k m ≡ some c
    → suc (length (delete k m)) ≡ length m
unfolding delete lookup
length-delete_held k c [] d held = cc
length-delete_held k c ((j, v) ∷ m) d held = elim (Bool-cases (text_eq j k)) [
  | inl same ↦
      let gone : lookup k m ≡ none = rw (← eq_of_text_eq j k same) d.0 in
      let rest : delete k m ≡ m = delete_fresh k m gone in rw (same, rest) refl
  | inr other ↦ ground (arith, other, held, length-delete_held k c m d.1)
]

-- The tails that were started are those that were stopped, those in the table and those lost.
pub record Accounted (t : TailSessions) (n : ℕ) : Type 0 where
  pub distinct : Distinct t.sessions
  pub started : t.next ≡ length t.closed + (length t.sessions + n)

module _ (eval_symlinks : Bytes → Option Bytes) (dropzone_dir : Bytes)
    (allowed_paths : List Bytes) where
  start-Accounted :
      (request_id path : Bytes) (t : TailSessions) (n : ℕ)
      → Accounted t n
      → Accounted
          (record t { sessions = assign request_id t.next t.sessions; next = suc t.next })
          (n + lost (lookup request_id t.sessions) (starts path t.next))
  unfolding assign
  start-Accounted request_id path t n a = elim (Option-cases (lookup request_id t.sessions)) [
    | inl fresh ↦ rw fresh (record {
      distinct = assign-Distinct request_id t.next t.sessions a.distinct;
      started = rw (delete_fresh request_id t.sessions fresh) (omega (arith, a.started));
    })
    | inr (c, held) ↦
        let shorter = length-delete_held request_id c t.sessions a.distinct held in
        rw held (record {
          distinct = assign-Distinct request_id t.next t.sessions a.distinct;
          started = omega (arith, a.started, shorter);
        })
  ]

  stop-Accounted :
      (request_id : Bytes) (t : TailSessions) (n : ℕ)
      → Accounted t n
      → Accounted (handle_log_stream_stop request_id t) (n + 0)
  unfolding handle_log_stream_stop
  stop-Accounted request_id t n a = elim (Option-cases (lookup request_id t.sessions)) [
    | inl gone ↦
        rw (gone, handle_log_stream_stop)
          (record { distinct = a.distinct; started = omega (arith, a.started) })
    | inr (c, held) ↦
        let shorter = length-delete_held request_id c t.sessions a.distinct held in
        rw (held, handle_log_stream_stop)
          (record {
            distinct = delete-Distinct request_id t.sessions a.distinct;
            started = omega (arith, a.started, shorter);
          })
  ]

  -- A request for a log stream is refused, or it starts a tail.
  answered :
      (request_id path : Bytes) (t : TailSessions)
      → let answer =
          handle_log_stream_request eval_symlinks dropzone_dir allowed_paths request_id path t in
        ((m : Bytes) × (answer ≡ (t, reports m)))
        ⊎ (answer ≡ (
          record t { sessions = assign request_id t.next t.sessions; next = suc t.next },
          starts (resolve_agent_path dropzone_dir path) t.next,
        ))
  unfolding handle_log_stream_request
  answered request_id path t =
      let resolved = resolve_agent_path dropzone_dir path in
      elim (Bool-cases (is_path_allowed eval_symlinks resolved allowed_paths)) [
        | inr no_ ↦
            inl (text "error: path not in allowed list", rw (no_, handle_log_stream_request) refl)
        | inl yes_ ↦ elim (Bool-cases (leb max_tail_sessions (length t.sessions))) [
          | inl full ↦ inl (
            text "error: too many active tail sessions",
            rw (yes_, full, handle_log_stream_request) refl,
          )
          | inr room ↦ inr (rw (yes_, room, handle_log_stream_request) refl)
        ]
      ]

  refused-Accounted :
      (t : TailSessions) (n : ℕ) (held : Option ℕ) (m : Bytes)
      → Accounted t n
      → Accounted t (n + lost held (reports m))
  refused-Accounted t n none m a = record {
    distinct = a.distinct;
    started = omega (arith, a.started);
  }
  refused-Accounted t n (some c) m a = record {
    distinct = a.distinct;
    started = omega (arith, a.started);
  }

  step-Accounted :
      (t : TailSessions) (n : ℕ) (o : Op)
      → Accounted t n
      → Accounted
          (step eval_symlinks dropzone_dir allowed_paths t o)
          (n + step_lost eval_symlinks dropzone_dir allowed_paths t o)
  unfolding step
  step-Accounted t n (stops request_id) a = stop-Accounted request_id t n a
  step-Accounted t n (streams request_id path) a = elim (answered request_id path t) [
    | inl (m, value) ↦ rw (step, value) (refused-Accounted t n (lookup request_id t.sessions) m a)
    | inr value ↦
        rw (step, value) (start-Accounted request_id (resolve_agent_path dropzone_dir path) t n a)
  ]

  run-Accounted :
      (os : List Op) (t : TailSessions) (n : ℕ)
      → Accounted t n
      → Accounted
          (run eval_symlinks dropzone_dir allowed_paths t os)
          (n + run_lost eval_symlinks dropzone_dir allowed_paths t os)
  unfolding run
  run-Accounted [] t n a = record { distinct = a.distinct; started = omega (arith, a.started) }
  run-Accounted (o ∷ os) t n a =
      let t' = step eval_symlinks dropzone_dir allowed_paths t o in
      let k = step_lost eval_symlinks dropzone_dir allowed_paths t o in
      let rest = run-Accounted os t' (n + k) (step-Accounted t n o a) in
      record { distinct = rest.distinct; started = omega (arith, rest.started) }

-- Whatever log streams are asked for and stopped on a new agent: at most 50 are in the table, no two of
-- these share a stop channel, and no channel is closed twice or is closed while the table has it. The
-- tails that were started and not stopped are as many as those in the table, and one more for each that
-- was started with the id of one in the table, whose channel is then lost.
pub tail_sessions-Accounted :
    (eval_symlinks : Bytes → Option Bytes) (dropzone_dir : Bytes) (allowed_paths : List Bytes)
    (os : List Op)
    → let t = run eval_symlinks dropzone_dir allowed_paths no_tails os in
      IsValid t × Accounted t (run_lost eval_symlinks dropzone_dir allowed_paths no_tails os)
tail_sessions-Accounted eval_symlinks dropzone_dir allowed_paths os =
    let sum =
      run-Accounted eval_symlinks dropzone_dir allowed_paths os no_tails 0
        (record { distinct = tt; started = refl }) in
    (
      tail_sessions-IsValid eval_symlinks dropzone_dir allowed_paths os,
      record { distinct = sum.distinct; started = omega (arith, sum.started) },
    )
