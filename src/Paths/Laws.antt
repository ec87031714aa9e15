-- ===== src/Paths/Laws.antt =====
-- The words of a path, and that cleaning a path twice is cleaning it once.
use aerodocs.Paths.{
  dot, dot_dot, slash, push_head, split, join, drop_last, go_up, enter, resolve, is_abs, words,
  clean,
}
use aerodocs.Base.{
  ℕ, ◌≡◌, refl, sym, ◌≢◌, inl, inr, true, false, ◌||◌, some, List, [], ◌∷◌, ◌++◌, arith, ◌==◌,
  Bool-cases, Option-cases, take, get_last?, All, All-append, Bytes, text_eq, text_eq_iff,
  has_prefix, Lacks,
}

-- A word of a clean path below the root.
pub record Plain (w : Bytes) : Type 0 where
  pub full : w ≢ []
  pub moves : w ≢ dot
  pub stays : w ≢ dot_dot
  pub single : Lacks slash w

abbrev pub AllSingle : List Bytes → Type 0
AllSingle ws = All (λ w. Lacks slash w) ws

push_head-AllSingle :
    (c : ℕ) (ws : List Bytes) → c ≢ slash → AllSingle ws → AllSingle (push_head c ws)
push_head-AllSingle c [] h s = ((h, tt), tt)
push_head-AllSingle c (w ∷ ws) h s = ((h, s.0), s.1)

pub split-AllSingle : (p : Bytes) → AllSingle (split p)
unfolding split
split-AllSingle [] = (tt, tt)
split-AllSingle (c ∷ cs) = elim (Bool-cases (c == slash)) [
  | inl e ↦ rw e (tt, split-AllSingle cs)
  | inr e ↦ rw e (push_head-AllSingle c (split cs) (ground arith) (split-AllSingle cs))
]

pub drop_last-All : (P : Bytes → Type 0) (ws : List Bytes) → All P ws → All P (drop_last ws)
drop_last-All P [] h = tt
drop_last-All P (w ∷ []) h = tt
drop_last-All P (w ∷ v ∷ ws) h = (h.0, drop_last-All P (v ∷ ws) h.1)

get_last?-All :
    (P : Bytes → Type 0) (ws : List Bytes) (w : Bytes) → All P ws → get_last? ws ≡ some w → P w
get_last?-All P [] w h e = cc
get_last?-All P (v ∷ []) w h e = let same : v ≡ w = ground arith in rw (← same) h.0
get_last?-All P (v ∷ u ∷ ws) w h e = get_last?-All P (u ∷ ws) w h.1 e

go_up-Plain : (ws : List Bytes) → All Plain ws → All Plain (go_up true ws)
unfolding go_up
go_up-Plain ws h = elim (Option-cases (get_last? ws)) [
  | inl gone ↦ let value : go_up true ws ≡ ws = rw (gone, go_up) refl in rw value h
  | inr (top, held) ↦
      let other : text_eq top dot_dot ≡ false =
        ground (arith, (get_last?-All Plain ws top h held).stays, text_eq_iff top dot_dot) in
      let value : go_up true ws ≡ drop_last ws = rw (held, other, go_up) refl in
      rw value (drop_last-All Plain ws h)
]

enter-Plain :
    (w : Bytes) (ws : List Bytes) → Lacks slash w → All Plain ws → All Plain (enter true w ws)
unfolding enter
enter-Plain w ws single h = elim (Bool-cases (text_eq w [] || text_eq w dot)) [
  | inl skip ↦ rw skip h
  | inr take ↦ elim (Bool-cases (text_eq w dot_dot)) [
    | inl up ↦ rw (take, up) (go_up-Plain ws h)
    | inr down ↦
        let plain : Plain w = record {
          full = ground (arith, text_eq_iff w []);
          moves = ground (arith, text_eq_iff w dot);
          stays = ground (arith, text_eq_iff w dot_dot);
          single = single;
        } in
        rw (take, down) (All-append Plain ws (w ∷ []) h (plain, tt))
  ]
]

resolve-Plain :
    (ws before : List Bytes) → AllSingle ws → All Plain before → All Plain (resolve true ws before)
unfolding resolve
resolve-Plain [] before s h = h
resolve-Plain (w ∷ ws) before s h =
    resolve-Plain ws (enter true w before) s.1 (enter-Plain w before s.0 h)

pub words-Plain : (p : Bytes) → is_abs p ≡ true → All Plain (words p)
unfolding words
words-Plain p abs = rw abs (resolve-Plain (split p) [] (split-AllSingle p) tt)

-- Plain words are kept as they are.
enter_kept : (w : Bytes) (ws : List Bytes) → Plain w → enter true w ws ≡ ws ++ w ∷ []
unfolding enter
enter_kept w ws h =
    ground
      (arith, h.full, h.moves, h.stays, text_eq_iff w [], text_eq_iff w dot, text_eq_iff w dot_dot)

append_assoc : (as' bs cs : List Bytes) → (as' ++ bs) ++ cs ≡ as' ++ (bs ++ cs)
append_assoc [] bs cs = refl
append_assoc (a ∷ as') bs cs = rw (append_assoc as' bs cs)

append_nil : (as' : List Bytes) → as' ++ [] ≡ as'
append_nil [] = refl
append_nil (a ∷ as') = rw (append_nil as')

resolve_kept : (ws before : List Bytes) → All Plain ws → resolve true ws before ≡ before ++ ws
unfolding resolve
resolve_kept [] before h = sym (append_nil before)
resolve_kept (w ∷ ws) before h = rw (
  enter_kept w before h.0,
  resolve_kept ws (before ++ w ∷ []) h.1,
  append_assoc before (w ∷ []) ws,
)

split_single : (w : Bytes) → Lacks slash w → split w ≡ w ∷ []
unfolding split
split_single [] h = refl
split_single (c ∷ w) h =
    let ih = split_single w h.1 in
    let other : (c == slash) ≡ false = ground (arith, h.0) in rw (other, ih) refl

split_first : (w rest : Bytes) → Lacks slash w → split (w ++ slash ∷ rest) ≡ w ∷ split rest
unfolding split
split_first [] rest h = refl
split_first (c ∷ w) rest h =
    let ih = split_first w rest h.1 in
    let other : (c == slash) ≡ false = ground (arith, h.0) in rw (other, ih) refl

split-join : (w : Bytes) (ws : List Bytes) → AllSingle (w ∷ ws) → split (join (w ∷ ws)) ≡ w ∷ ws
unfolding join
split-join w [] h = split_single w h.0
split-join w (v ∷ ws) h = rw (split_first w (join (v ∷ ws)) h.0, split-join v ws h.1) refl

Plain-AllSingle : (ws : List Bytes) → All Plain ws → AllSingle ws
Plain-AllSingle [] h = tt
Plain-AllSingle (w ∷ ws) h = (h.0.single, Plain-AllSingle ws h.1)

pub words_below_root : (ws : List Bytes) → All Plain ws → words (slash ∷ join ws) ≡ ws
unfolding words is_abs has_prefix split resolve enter text_eq join
words_below_root [] h = refl
words_below_root (w ∷ ws) h =
    let parts = split-join w ws (Plain-AllSingle (w ∷ ws) h) in
    rw (parts, resolve_kept (w ∷ ws) [] h) refl

pub clean_abs : (p : Bytes) → is_abs p ≡ true → clean p ≡ slash ∷ join (words p)
unfolding clean
clean_abs p abs = rw abs refl

pub is_abs-clean : (p : Bytes) → is_abs p ≡ true → is_abs (clean p) ≡ true
unfolding is_abs has_prefix
is_abs-clean p abs = rw (clean_abs p abs) refl

pub words-clean : (p : Bytes) → is_abs p ≡ true → words (clean p) ≡ words p
words-clean p abs = rw (clean_abs p abs, words_below_root (words p) (words-Plain p abs)) refl

-- An absolute path that was cleaned is clean: cleaning it again leaves it as it is.
pub clean_twice : (p : Bytes) → is_abs p ≡ true → clean (clean p) ≡ clean p
clean_twice p abs =
    rw (clean_abs (clean p) (is_abs-clean p abs), words-clean p abs, clean_abs p abs) refl
