-- ===== src/Auth/Totp/Replay.antt =====
-- A one-time code is accepted once.
use aerodocs.Auth.Totp.{
  TotpUsedCodes, code_key, retention, is_kept, prune, mark_used, holds, check_and_mark,
  validate_totp_with_replay,
}
use aerodocs.Base.{
  ℕ, ◌+◌, ◌≤◌, ◌≡◌, refl, inl, inr, Bool, true, false, Option, none, some, List, [], ◌∷◌, arith,
  Bool-cases, All, Bytes, text_eq, lookup, assign, lookup-assign, lookup-assign_self, lookup-keep,
}

-- Calls with their times; the check of a code comes with its secret.
pub data Op : Type 0 where
  marks : Bytes → Bytes → ℕ → Op
  logs_in : Bytes → Bytes → Bytes → ℕ → Op

abbrev pub time_of : Op → ℕ
time_of (marks user code now) = now
time_of (logs_in user secret code now) = now

abbrev or_old : TotpUsedCodes → Option TotpUsedCodes → TotpUsedCodes
or_old c none = c
or_old c (some c') = c'

module _ (is_valid : Bytes → Bytes → Bool) where
  unfoldable pub step : TotpUsedCodes → Op → TotpUsedCodes
  step c (marks user code now) = mark_used user code now c
  step c (logs_in user secret code now) =
      or_old c (validate_totp_with_replay is_valid user secret code now (some c)).0

  unfoldable pub run : TotpUsedCodes → List Op → TotpUsedCodes
  run c [] = c
  run c (o ∷ os) = run (step c o) os

-- The code was marked, at `since` or later.
abbrev pub Marked : ℕ → Bytes → TotpUsedCodes → Type 0
Marked since key c = (t : ℕ) × (lookup key c.codes ≡ some t) × (since ≤ t)

-- Within the retention a call at a time `now` keeps the mark.
abbrev pub InRetention : ℕ → ℕ → Type 0
InRetention since now = (since ≤ now) × (now ≤ since + retention)

prune-Marked :
    (since now : ℕ) (key j : Bytes) (c : TotpUsedCodes)
    → InRetention since now
    → Marked since key c
    → Marked since key (record { codes = prune now (assign j now c.codes) })
prune-Marked since now key j c h (t, held, le) = elim (Bool-cases (text_eq j key)) [
  | inl here ↦ (
    now,
    lookup-keep key (is_kept now) now (assign j now c.codes)
        (rw (lookup-assign j key now c.codes, here) refl) (ground arith),
    h.0,
  )
  | inr there ↦ (
    t,
    lookup-keep key (is_kept now) t (assign j now c.codes)
        (rw (lookup-assign j key now c.codes, there) held) (ground (arith, h, le)),
    le,
  )
]

step-Marked :
    (is_valid : Bytes → Bytes → Bool) (since : ℕ) (key : Bytes) (c : TotpUsedCodes) (o : Op)
    → InRetention since (time_of o)
    → Marked since key c
    → Marked since key (step is_valid c o)
unfolding step mark_used validate_totp_with_replay
step-Marked is_valid since key c (marks user code now) h m =
    prune-Marked since now key (code_key user code) c h m
step-Marked is_valid since key c (logs_in user secret code now) h m =
    let after = prune-Marked since now key (code_key user code) c h m in
    elim (Bool-cases (is_valid code secret)) [
      | inr bad ↦ rw bad m
      | inl good ↦ elim (Bool-cases (holds (lookup (code_key user code) c.codes))) [
        | inl used ↦ rw (good, used) m
        | inr fresh ↦ rw (good, fresh) after
      ]
    ]

run-Marked :
    (is_valid : Bytes → Bytes → Bool) (since : ℕ) (key : Bytes) (os : List Op) (c : TotpUsedCodes)
    → All (λ o. InRetention since (time_of o)) os
    → Marked since key c
    → Marked since key (run is_valid c os)
unfolding run
run-Marked is_valid since key [] c h m = m
run-Marked is_valid since key (o ∷ os) c h m =
    run-Marked is_valid since key os (step is_valid c o) h.1
      (step-Marked is_valid since key c o h.0 m)

first_mark :
    (is_valid : Bytes → Bytes → Bool) (user secret code : Bytes) (since : ℕ) (c c' : TotpUsedCodes)
    → validate_totp_with_replay is_valid user secret code since (some c) ≡ (some c', true)
    → Marked since (code_key user code) c'
unfolding validate_totp_with_replay check_and_mark
first_mark is_valid user secret code since c c' ok =
    let key = code_key user code in
    let kept : lookup key (prune since (assign key since c.codes)) ≡ some since =
      lookup-keep key (is_kept since) since (assign key since c.codes)
        (lookup-assign_self key since c.codes) (ground arith) in
    (since, ground (arith, ok, kept), omega arith)

-- Once a login with a code has succeeded, no login of that user with that code succeeds within the
-- next 90 seconds, whatever codes are checked or marked meanwhile, at times in those 90 seconds.
pub validate_totp_with_replay-once :
    (is_valid : Bytes → Bytes → Bool) (user secret code secret' : Bytes) (since now : ℕ)
    (c c' : TotpUsedCodes) (os : List Op)
    → validate_totp_with_replay is_valid user secret code since (some c) ≡ (some c', true)
    → All (λ o. InRetention since (time_of o)) os
    → validate_totp_with_replay is_valid user secret' code now (some (run is_valid c' os))
      ≡ (some (run is_valid c' os), false)
unfolding validate_totp_with_replay check_and_mark
validate_totp_with_replay-once is_valid user secret code secret' since now c c' os ok h =
    let (t, held, le) =
      run-Marked is_valid since (code_key user code) os c' h
        (first_mark is_valid user secret code since c c' ok) in
    ground (arith, held)
