-- ===== src/Agent/Terminal/Identity/Passwd.antt =====
-- Lines of the passwd format.
use aerodocs.Grpc.Key.{colon}
use aerodocs.Agent.Terminal.Identity.{OsUser, split_at, nth, parse_getent_passwd_line}
use aerodocs.Base.{
  ℕ, ◌≡◌, refl, sym, ap, ◌∙◌, ◌≢◌, inl, inr, false, some, List, [], ◌∷◌, ◌++◌, arith, ltb, ◌==◌,
  ==_iff, Bool-cases, length, All, Bytes, Lacks,
}

-- A line of the passwd format with a user's fields.
pub record IsPasswdLine (line : Bytes) (u : OsUser) : Type 0 where
  pub password : Bytes
  pub shell : Bytes
  pub format :
      line
      ≡ u.username
        ++ colon
          ∷ (password
              ++ colon
                ∷ (u.uid
                    ++ colon
                      ∷ (u.gid ++ colon ∷ (u.name ++ colon ∷ (u.home_dir ++ colon ∷ shell)))))
  pub plain : All (Lacks colon) (u.username ∷ password ∷ u.uid ∷ u.gid ∷ u.name ∷ u.home_dir ∷ [])

-- The parts with their separator.
abbrev join_at : ℕ → List Bytes → Bytes
join_at sep [] = []
join_at sep (w ∷ []) = w
join_at sep (w ∷ v ∷ ws) = w ++ sep ∷ join_at sep (v ∷ ws)

-- A list of at least one part.
split_at-nonempty :
    (sep : ℕ) (s : Bytes) → (w : Bytes) × ((ws : List Bytes) × (split_at sep s ≡ w ∷ ws))
unfolding split_at
split_at-nonempty sep [] = ([], ([], refl))
split_at-nonempty sep (c ∷ s) =
    let (w, (ws, e)) = split_at-nonempty sep s in
    elim (Bool-cases (c == sep)) [
      | inl cut ↦ ([], (w ∷ ws, rw (cut, e) refl))
      | inr same ↦ (c ∷ w, (ws, rw (same, e) refl))
    ]

join-push_head :
    (sep c : ℕ) (w : Bytes) (ws : List Bytes)
    → join_at sep ((c ∷ w) ∷ ws) ≡ c ∷ join_at sep (w ∷ ws)
join-push_head sep c w [] = refl
join-push_head sep c w (v ∷ ws) = refl

join-split_at : (sep : ℕ) (s : Bytes) → join_at sep (split_at sep s) ≡ s
unfolding split_at
join-split_at sep [] = refl
join-split_at sep (c ∷ s) =
    let (w, (ws, e)) = split_at-nonempty sep s in
    let ih : join_at sep (w ∷ ws) ≡ s = rw (← e) (join-split_at sep s) in
    elim (Bool-cases (c == sep)) [
      | inl cut ↦
          let same : c ≡ sep = ground (arith, cut, ==_iff c sep) in rw (cut, e) (rw (ih, same) refl)
      | inr other ↦ rw (other, e) (join-push_head sep c w ws ∙ ap (λ t. c ∷ t) ih)
    ]

split_at-Lacks : (sep : ℕ) (s : Bytes) → All (Lacks sep) (split_at sep s)
unfolding split_at
split_at-Lacks sep [] = (tt, tt)
split_at-Lacks sep (c ∷ s) =
    let (w, (ws, e)) = split_at-nonempty sep s in
    let ih : All (Lacks sep) (w ∷ ws) = rw e at (split_at-Lacks sep s) in
    elim (Bool-cases (c == sep)) [
      | inl cut ↦ rw (cut, e) (tt, ih)
      | inr other ↦
          let differs : c ≢ sep = ground (arith, other, ==_iff c sep) in
          rw (other, e) ((differs, ih.0), ih.1)
    ]

abbrev line_user : List Bytes → OsUser
line_user fields = record {
  username = nth 0 fields;
  uid = nth 2 fields;
  gid = nth 3 fields;
  name = nth 4 fields;
  home_dir = nth 5 fields;
}

fields-IsPasswdLine :
    (line : Bytes) (fields : List Bytes)
    → split_at colon line ≡ fields
    → ltb (length fields) 7 ≡ false
    → IsPasswdLine line (line_user fields)
fields-IsPasswdLine line [] at long = absurd (ground (arith, long))
fields-IsPasswdLine line (a ∷ []) at long = absurd (ground (arith, long))
fields-IsPasswdLine line (a ∷ b ∷ []) at long = absurd (ground (arith, long))
fields-IsPasswdLine line (a ∷ b ∷ c ∷ []) at long = absurd (ground (arith, long))
fields-IsPasswdLine line (a ∷ b ∷ c ∷ d ∷ []) at long = absurd (ground (arith, long))
fields-IsPasswdLine line (a ∷ b ∷ c ∷ d ∷ e ∷ []) at long = absurd (ground (arith, long))
fields-IsPasswdLine line (a ∷ b ∷ c ∷ d ∷ e ∷ f ∷ []) at long = absurd (ground (arith, long))
fields-IsPasswdLine line (a ∷ b ∷ c ∷ d ∷ e ∷ f ∷ g ∷ rest) at long =
    let lacks : All (Lacks colon) (a ∷ b ∷ c ∷ d ∷ e ∷ f ∷ g ∷ rest) =
      rw at at (split_at-Lacks colon line) in
    let whole : join_at colon (a ∷ b ∷ c ∷ d ∷ e ∷ f ∷ g ∷ rest) ≡ line =
      rw at at (join-split_at colon line) in
    record {
      password = b;
      shell = join_at colon (g ∷ rest);
      format = sym whole;
      plain = (
        lacks.0,
        (lacks.1.0, (lacks.1.1.0, (lacks.1.1.1.0, (lacks.1.1.1.1.0, (lacks.1.1.1.1.1.0, tt))))),
      );
    }

pub parse-IsPasswdLine :
    (line : Bytes) (u : OsUser) → parse_getent_passwd_line line ≡ some u → IsPasswdLine line u
unfolding parse_getent_passwd_line
parse-IsPasswdLine line u e =
    let fields = split_at colon line in
    let long : ltb (length fields) 7 ≡ false = ground (arith, e) in
    let same : line_user fields ≡ u = ground (arith, e) in
    rw (← same) (fields-IsPasswdLine line fields refl long)
