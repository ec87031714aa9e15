-- ===== src/Agent/Access/Laws.antt =====
-- What the agent's own list of allowed paths admits.
use aerodocs.Paths.{is_abs, words, clean, rel}
use aerodocs.Paths.Laws.{is_abs-clean}
use aerodocs.Paths.Rel.{is_above, stays_below, is_below, rel-is_below}
use aerodocs.Agent.Access.{
  path_within_root, candidate_allowed_roots, path_within_allowed_roots, is_path_allowed,
}
use aerodocs.Base.{
  ◌≡◌, refl, ◌∙◌, inl, inr, Bool, true, ◌&&◌, Option, none, some, List, [], ◌∷◌, Bool-cases,
  Option-cases, any, Bytes,
}

-- A root covers a path: it is absolute, and its words are the first words of the path.
abbrev pub covers : Bytes → Bytes → Bool
covers path root = is_abs root && is_above (words root) (words path)

-- One of the allowed paths, or what it resolves to, covers the path.
abbrev pub is_covered : (Bytes → Option Bytes) → Bytes → List Bytes → Bool
is_covered eval_symlinks path allowed =
    any (λ a. any (covers path) (candidate_allowed_roots eval_symlinks a)) allowed

within_below : (path root : Bytes) → path_within_root path root ≡ is_below (rel root path)
unfolding path_within_root is_below stays_below
within_below path root = elim (Option-cases (rel root path)) [
  | inl gone ↦ rw (gone, path_within_root) refl
  | inr (r, found) ↦ rw (found, path_within_root) refl
]

within_covers :
    (path root : Bytes) → is_abs path ≡ true → path_within_root path root ≡ covers path root
within_covers path root abs = within_below path root ∙ rel-is_below root path abs

any_within :
    (path : Bytes) (roots : List Bytes)
    → is_abs path ≡ true
    → any (path_within_root path) roots ≡ any (covers path) roots
any_within path [] abs = refl
any_within path (root ∷ roots) abs =
    rw (within_covers path root abs, any_within path roots abs) refl

pub within_allowed_covers :
    (eval_symlinks : Bytes → Option Bytes) (path : Bytes) (allowed : List Bytes)
    → is_abs path ≡ true
    → path_within_allowed_roots eval_symlinks path allowed ≡ is_covered eval_symlinks path allowed
unfolding path_within_allowed_roots
within_allowed_covers eval_symlinks path [] abs = refl
within_allowed_covers eval_symlinks path (a ∷ allowed) abs =
    rw
      (
        any_within path (candidate_allowed_roots eval_symlinks a) abs,
        within_allowed_covers eval_symlinks path allowed abs,
      )
      refl

-- Where an absolute path resolves to an absolute path: on an agent with allowed paths, an absolute path is allowed only if one of them, or what it resolves
-- to, covers it as a list of words, and covers too what the path resolves to, unless it does not
-- resolve. If these hold it is allowed.
pub is_path_allowed_covered :
    (eval_symlinks : Bytes → Option Bytes) (path a : Bytes) (allowed : List Bytes)
    → is_abs path ≡ true
    → ((p r : Bytes) → is_abs p ≡ true → eval_symlinks p ≡ some r → is_abs r ≡ true)
    → is_path_allowed eval_symlinks path (a ∷ allowed) ≡ (
        is_covered eval_symlinks (clean path) (a ∷ allowed) && elim (eval_symlinks (clean path)) [
          | none ↦ true
          | some r ↦ is_covered eval_symlinks (clean r) (a ∷ allowed)
        ])
unfolding is_path_allowed
is_path_allowed_covered eval_symlinks path a allowed abs rooted =
    let first =
      within_allowed_covers eval_symlinks (clean path) (a ∷ allowed) (is_abs-clean path abs) in
    elim (Bool-cases (is_covered eval_symlinks (clean path) (a ∷ allowed))) [
      | inr no_ ↦ rw (first, no_, is_path_allowed) refl
      | inl yes_ ↦ elim (Option-cases (eval_symlinks (clean path))) [
        | inl gone ↦ rw (first, yes_, gone, is_path_allowed) refl
        | inr (r, found) ↦
            let second =
              within_allowed_covers eval_symlinks (clean r) (a ∷ allowed)
                (is_abs-clean r (rooted (clean path) r (is_abs-clean path abs) found)) in
            rw (first, yes_, found, second, is_path_allowed) refl
      ]
    ]
