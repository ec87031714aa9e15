-- ===== src/Agent/Access/Tests.antt =====
-- Paths on an agent whose only allowed path is /data.
use aerodocs.Paths.{is_abs, clean}
use aerodocs.Paths.{words, split, resolve, enter, join}
use aerodocs.Agent.Access.{is_path_allowed, resolve_agent_path, handle_file_delete_request}
use aerodocs.Agent.Access.Deletion.{handle_file_delete_request-Confined}
use aerodocs.Agent.Access.Tails.{IsValid, Op, streams, stops, run, no_tails}
use aerodocs.Agent.Access.Lost.{run_lost, Accounted, tail_sessions-Accounted}
use aerodocs.Agent.Access.Laws.{is_covered, is_path_allowed_covered}
use aerodocs.Base.{
  inl, inr, if◌then◌else◌, Bool-cases, arith, ◌≡◌, refl, true, ◌&&◌, Option, none, some, List, [],
  ◌∷◌, ◌++◌, Bytes, text, text_eq, has_prefix,
}

abbrev unresolved : Bytes → Option Bytes
unresolved p = none

abbrev allowed : List Bytes
allowed = text "/data" ∷ []

-- The file /data/a is a link to /data/b.
abbrev linked : Bytes → Option Bytes
linked p = if text_eq p (text "/data/a") then some (text "/data/b") else some p

linked_abs : (p r : Bytes) → is_abs p ≡ true → linked p ≡ some r → is_abs r ≡ true
unfolding is_abs has_prefix
linked_abs p r abs e = elim (Bool-cases (text_eq p (text "/data/a"))) [
  | inl same ↦ let value : text "/data/b" ≡ r = ground (arith, same, e) in rw (← value) refl
  | inr other ↦ let value : p ≡ r = ground (arith, other, e) in rw (← value) abs
]

is_path_allowed_covered_example : is_path_allowed linked (text "/data/a") allowed ≡ (
    is_covered linked (clean (text "/data/a")) allowed && elim (linked (clean (text "/data/a"))) [
      | none ↦ true
      | some r ↦ is_covered linked (clean r) allowed
    ])
unfolding is_abs has_prefix
is_path_allowed_covered_example =
    is_path_allowed_covered linked (text "/data/a") (text "/data") [] refl linked_abs

abbrev ops : List Op
ops =
    streams (text "r") (text "/data/a")
    ∷ streams (text "r") (text "/data/b")
    ∷ stops (text "r")
    ∷ []

tail_sessions-Accounted_example :
    let t = run unresolved (text "/d") allowed no_tails ops in
    IsValid t × Accounted t (run_lost unresolved (text "/d") allowed no_tails ops)
tail_sessions-Accounted_example = tail_sessions-Accounted unresolved (text "/d") allowed ops

dropzone_is_abs : is_abs (text "/d") ≡ true
unfolding is_abs has_prefix
dropzone_is_abs = refl

file_is_removed :
    (handle_file_delete_request (λ p. true) (text "/d") (text "r") (text "/d//f")).1
    ≡ some (text "/d/f")
unfolding handle_file_delete_request resolve_agent_path clean is_abs words split resolve enter join
    has_prefix text_eq
file_is_removed = refl

handle_file_delete_request-Confined_example :
    (x : Bytes) × ((xs : List Bytes) × (words (text "/d/f") ≡ words (text "/d") ++ x ∷ xs))
handle_file_delete_request-Confined_example =
    handle_file_delete_request-Confined (λ p. true) (text "/d") (text "r") (text "/d//f")
      (text "/d/f") dropzone_is_abs file_is_removed
