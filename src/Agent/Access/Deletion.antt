-- ===== src/Agent/Access/Deletion.antt =====
-- The agent deletes only below the directory of its dropzone.
use mathlib.Core.Path.{subst}
use aerodocs.Paths.{slash, join, is_abs, words, clean}
use aerodocs.Paths.Laws.{Plain, words-Plain, clean_abs, words-clean}
use aerodocs.Paths.Relative.{clean-relative}
use aerodocs.Agent.Access.{resolve_agent_path, handle_file_delete_request}
use aerodocs.Base.{
  ◌≡◌, refl, sym, ap, ◌∙◌, inl, inr, Bool, true, some, List, [], ◌∷◌, ◌++◌, arith, Bool-cases, drop,
  All, Bytes, has_prefix, eq_of_has_prefix, Lacks, split_unique,
}

no_middle : (a b : Bytes) → ¬ Lacks slash (a ++ slash ∷ b)
no_middle [] b h = h.0 refl
no_middle (c ∷ a) b h = no_middle a b h.1

not_empty : (a b : Bytes) → ¬ ([] ≡ a ++ slash ∷ b)
not_empty [] b e = cc
not_empty (c ∷ a) b e = cc

append_assoc : (as' bs cs : Bytes) → (as' ++ bs) ++ cs ≡ as' ++ (bs ++ cs)
append_assoc [] bs cs = refl
append_assoc (a ∷ as') bs cs = rw (append_assoc as' bs cs) refl

-- The text of a directory and a slash is the start of the text of a path below it only.
join_below :
    (ws vs : List Bytes) (rest : Bytes)
    → All Plain ws
    → All Plain vs
    → join vs ≡ join ws ++ slash ∷ rest
    → (x : Bytes) × ((xs : List Bytes) × (vs ≡ ws ++ x ∷ xs))
unfolding join
join_below [] [] rest hw hv e = absurd (not_empty [] rest e)
join_below [] (v ∷ []) rest hw hv e =
    absurd (no_middle [] rest (subst (λ t. Lacks slash t) e hv.0.single))
join_below [] (v ∷ u ∷ vs) rest hw hv e =
    absurd (hv.0.full (split_unique slash v [] (join (u ∷ vs)) rest hv.0.single tt e).0)
join_below (w ∷ []) [] rest hw hv e = absurd (not_empty w rest e)
join_below (w ∷ []) (v ∷ []) rest hw hv e =
    absurd (no_middle w rest (subst (λ t. Lacks slash t) e hv.0.single))
join_below (w ∷ []) (v ∷ u ∷ vs) rest hw hv e =
    let same = (split_unique slash v w (join (u ∷ vs)) rest hv.0.single hw.0.single e).0 in
    (u, (vs, rw same refl))
join_below (w ∷ w2 ∷ ws) [] rest hw hv e = absurd (
    not_empty w (join (w2 ∷ ws) ++ slash ∷ rest)
      (e ∙ append_assoc w (slash ∷ join (w2 ∷ ws)) (slash ∷ rest)))
join_below (w ∷ w2 ∷ ws) (v ∷ []) rest hw hv e =
    let e' = e ∙ append_assoc w (slash ∷ join (w2 ∷ ws)) (slash ∷ rest) in
    absurd
      (no_middle w (join (w2 ∷ ws) ++ slash ∷ rest) (subst (λ t. Lacks slash t) e' hv.0.single))
join_below (w ∷ w2 ∷ ws) (v ∷ u ∷ vs) rest hw hv e =
    let e' = e ∙ append_assoc w (slash ∷ join (w2 ∷ ws)) (slash ∷ rest) in
    let (same, tail) =
      split_unique slash v w (join (u ∷ vs)) (join (w2 ∷ ws) ++ slash ∷ rest) hv.0.single
        hw.0.single e' in
    let (x, (xs, below)) = join_below (w2 ∷ ws) (u ∷ vs) rest hw.1 hv.1 tail in
    (x, (xs, rw (same, below) refl))

prefix_below :
    (dir path : Bytes)
    → is_abs dir ≡ true
    → is_abs path ≡ true
    → has_prefix (clean path) (clean dir ++ slash ∷ []) ≡ true
    → (x : Bytes) × ((xs : List Bytes) × (words path ≡ words dir ++ x ∷ xs))
prefix_below dir path dir_abs path_abs p =
    let (rest, e) = eq_of_has_prefix (clean path) (clean dir ++ slash ∷ []) p in
    let e' : slash ∷ join (words path) ≡ slash ∷ (join (words dir) ++ slash ∷ rest) =
      sym (clean_abs path path_abs)
      ∙ e
      ∙ ap (λ d. (d ++ slash ∷ []) ++ rest) (clean_abs dir dir_abs)
      ∙ append_assoc (slash ∷ join (words dir)) (slash ∷ []) rest in
    let e'' : join (words path) ≡ join (words dir) ++ slash ∷ rest = ap (drop 1) e' in
    join_below (words dir) (words path) rest (words-Plain dir dir_abs) (words-Plain path path_abs)
      e''

prefix_abs :
    (dir path : Bytes)
    → is_abs dir ≡ true
    → has_prefix (clean path) (clean dir ++ slash ∷ []) ≡ true
    → is_abs path ≡ true
unfolding is_abs has_prefix
prefix_abs dir path dir_abs p = elim (Bool-cases (is_abs path)) [
  | inl yes_ ↦ yes_
  | inr no_ ↦
      let (rest, e) = eq_of_has_prefix (clean path) (clean dir ++ slash ∷ []) p in
      let e' : clean path ≡ slash ∷ ((join (words dir) ++ slash ∷ []) ++ rest) =
        e ∙ ap (λ d. (d ++ slash ∷ []) ++ rest) (clean_abs dir dir_abs) in
      let relative = clean-relative path no_ in
      let rooted : is_abs (clean path) ≡ true = rw e' refl in cc
]

-- If a request to delete a file makes the agent remove a path, that path is strictly below the
-- absolute directory of its dropzone: its words are the directory's, and at least one more.
pub handle_file_delete_request-Confined :
    (remove : Bytes → Bool) (dropzone_dir request_id path target : Bytes)
    → is_abs dropzone_dir ≡ true
    → (handle_file_delete_request remove dropzone_dir request_id path).1 ≡ some target
    → (x : Bytes) × ((xs : List Bytes) × (words target ≡ words dropzone_dir ++ x ∷ xs))
unfolding handle_file_delete_request
handle_file_delete_request-Confined remove dropzone_dir request_id path target dir_abs removed =
    let asked = resolve_agent_path dropzone_dir path in
    elim (Bool-cases (has_prefix (clean asked) (clean dropzone_dir ++ slash ∷ []))) [
      | inr outside ↦ absurd (ground (arith, outside, removed))
      | inl inside ↦
          let same : clean asked ≡ target = ground (arith, inside, removed) in
          let abs = prefix_abs dropzone_dir asked dir_abs inside in
          let (x, (xs, below)) = prefix_below dropzone_dir asked dir_abs abs inside in
          (x, (xs, sym (ap words same) ∙ words-clean asked abs ∙ below))
    ]
