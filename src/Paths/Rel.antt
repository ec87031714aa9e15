-- ===== src/Paths/Rel.antt =====
-- `rel` of absolute paths goes up exactly if the root is not above the target.
use aerodocs.Paths.{
  dot, dot_dot, slash, join, is_abs, words, clean, strip_common, climb, target_words, rel,
}
use aerodocs.Paths.Laws.{Plain, words-Plain, is_abs-clean, words-clean}
use aerodocs.Paths.Relative.{clean-relative}
use aerodocs.Base.{
  ◌≡◌, refl, sym, ap, ◌∙◌, ◌≢◌, ◌⊎◌, inl, inr, Bool, true, false, not, ◌&&◌, ◌||◌, Option, none,
  some, List, [], ◌∷◌, ◌++◌, arith, Bool-cases, All, Bytes, text_eq, text_eq_refl, eq_of_text_eq,
  text_eq_iff, has_prefix, Lacks,
}

-- The words of the root are the first words of the target.
abbrev pub is_above : List Bytes → List Bytes → Bool
is_above [] ts = true
is_above (b ∷ bs) [] = false
is_above (b ∷ bs) (t ∷ ts) = text_eq b t && is_above bs ts

pub is_above_append : (bs ts : List Bytes) → is_above bs (bs ++ ts) ≡ true
is_above_append [] ts = refl
is_above_append (b ∷ bs) ts = rw (text_eq_refl b, is_above_append bs ts) refl

pub is_above_words :
    (bs ts : List Bytes) → is_above bs ts ≡ true → (rest : List Bytes) × (ts ≡ bs ++ rest)
is_above_words [] ts h = (ts, refl)
is_above_words (b ∷ bs) [] h = cc
is_above_words (b ∷ bs) (t ∷ ts) h =
    let same = eq_of_text_eq b t (ground arith) in
    let (rest, e) = is_above_words bs ts (ground arith) in (rest, rw (same, e) refl)

-- The test of `isPathAllowed` on a relative path.
unfoldable pub stays_below : Bytes → Bool
stays_below r =
    text_eq r dot || (not (has_prefix r (dot_dot ++ slash ∷ [])) && not (text_eq r dot_dot))

unfoldable pub is_below : Option Bytes → Bool
unfolding stays_below
is_below none = false
is_below (some r) = stays_below r

-- A path whose first word is plain does not go up.
has_prefix_single :
    (w rest : Bytes)
    → Lacks slash w
    → has_prefix (w ++ rest) (dot_dot ++ slash ∷ []) ≡ true
    → (w ≡ []) ⊎ ((w ≡ dot) ⊎ (w ≡ dot_dot))
unfolding has_prefix
has_prefix_single [] rest h p = inl refl
has_prefix_single (a ∷ []) rest h p = inr (inl (ground arith))
has_prefix_single (a ∷ b ∷ []) rest h p = inr (inr (ground arith))
has_prefix_single (a ∷ b ∷ c ∷ w) rest h p = absurd (h.1.1.0 (ground arith))

append_nil : (w : Bytes) → w ++ [] ≡ w
append_nil [] = refl
append_nil (a ∷ w) = rw (append_nil w)

no_dots : (w rest : Bytes) → Plain w → has_prefix (w ++ rest) (dot_dot ++ slash ∷ []) ≡ false
no_dots w rest h = elim (Bool-cases (has_prefix (w ++ rest) (dot_dot ++ slash ∷ []))) [
  | inr no_ ↦ no_
  | inl yes_ ↦ elim (has_prefix_single w rest h.single yes_) [
    | inl e ↦ absurd (h.full e)
    | inr (inl e) ↦ absurd (h.moves e)
    | inr (inr e) ↦ absurd (h.stays e)
  ]
]

slash_stays : (w rest : Bytes) → Lacks slash w → w ++ slash ∷ rest ≢ dot_dot
slash_stays [] rest h e = ground (arith, e)
slash_stays (a ∷ []) rest h e = ground (arith, e)
slash_stays (a ∷ b ∷ []) rest h e = ground (arith, e)
slash_stays (a ∷ b ∷ c ∷ w) rest h e = ground (arith, e)

join-stays_below : (ts : List Bytes) → All Plain ts → stays_below (join ts) ≡ true
unfolding join stays_below has_prefix text_eq
join-stays_below [] h = refl
join-stays_below (w ∷ []) h =
    let prefix : has_prefix w (dot_dot ++ slash ∷ []) ≡ false =
      let e = no_dots w [] h.0 in rw (← append_nil w) e in
    let other : text_eq w dot_dot ≡ false = ground (arith, h.0.stays, text_eq_iff w dot_dot) in
    ground (arith, prefix, other)
join-stays_below (w ∷ v ∷ ts) h =
    let rest = slash ∷ join (v ∷ ts) in
    let prefix = no_dots w rest h.0 in
    let other : text_eq (w ++ rest) dot_dot ≡ false =
      ground (arith, slash_stays w (join (v ∷ ts)) h.0.single, text_eq_iff (w ++ rest) dot_dot) in
    ground (arith, prefix, other)

climb-is_below : (b : Bytes) (bs ts : List Bytes) → Plain b → is_below (climb (b ∷ bs) ts) ≡ false
unfolding climb stays_below is_below join has_prefix text_eq
climb-is_below b [] [] h = ground (arith, h.stays, text_eq_iff b dot_dot)
climb-is_below b [] (t ∷ ts) h = ground (arith, h.stays, text_eq_iff b dot_dot)
climb-is_below b (c ∷ bs) ts h = ground (arith, h.stays, text_eq_iff b dot_dot)

strip-is_below :
    (bs ts : List Bytes)
    → All Plain bs
    → All Plain ts
    → is_below (climb (strip_common bs ts).0 (strip_common bs ts).1) ≡ is_above bs ts
unfolding strip_common climb is_below
strip-is_below [] ts hb ht = join-stays_below ts ht
strip-is_below (b ∷ bs) [] hb ht = climb-is_below b bs [] hb.0
strip-is_below (b ∷ bs) (t ∷ ts) hb ht = elim (Bool-cases (text_eq b t)) [
  | inl same ↦ rw same (strip-is_below bs ts hb.1 ht.1)
  | inr other ↦ rw other (climb-is_below b bs (t ∷ ts) hb.0)
]

is_above_refl : (ws : List Bytes) → is_above ws ws ≡ true
is_above_refl [] = refl
is_above_refl (w ∷ ws) = rw (text_eq_refl w, is_above_refl ws) refl

clean_apart :
    (root target : Bytes)
    → is_abs root ≡ false
    → is_abs target ≡ true
    → text_eq (clean root) (clean target) ≡ false
clean_apart root target relative abs = elim (Bool-cases (text_eq (clean root) (clean target))) [
  | inr other ↦ other
  | inl same ↦
      let eq = eq_of_text_eq (clean root) (clean target) same in
      let no_ = clean-relative root relative in let yes_ = is_abs-clean target abs in cc
]

target_words_abs : (t : Bytes) → is_abs t ≡ true → target_words t ≡ words t
unfolding target_words is_abs has_prefix text_eq
target_words_abs [] abs = refl
target_words_abs (c ∷ t) abs = ground (arith, abs)

-- The relative path from a root to an absolute target stays below the root exactly if the root is
-- absolute and its words, once clean, are the first words of the target.
pub rel-is_below :
    (root target : Bytes)
    → is_abs target ≡ true
    → is_below (rel root target) ≡ (is_abs root && is_above (words root) (words target))
unfolding rel is_below text_eq
rel-is_below root target abs = elim (Bool-cases (is_abs root)) [
  | inr relative ↦
      let apart : text_eq (clean root) (clean target) ≡ false =
        clean_apart root target relative abs in
      let below : is_abs (clean root) ≡ false = clean-relative root relative in
      rw (apart, below, is_abs-clean target abs, relative) refl
  | inl rooted ↦ elim (Bool-cases (text_eq (clean root) (clean target))) [
    | inl same ↦
        let eq = eq_of_text_eq (clean root) (clean target) same in
        let same_words : words root ≡ words target =
          sym (words-clean root rooted) ∙ ap words eq ∙ words-clean target abs in
        rw (same, rooted, same_words, is_above_refl (words target)) refl
    | inr other ↦
        let strip =
          strip-is_below (words root) (words target) (words-Plain root rooted)
            (words-Plain target abs) in
        rw
          (
            other,
            is_abs-clean root rooted,
            is_abs-clean target abs,
            target_words_abs (clean target) (is_abs-clean target abs),
            rooted,
            words-clean root rooted,
            words-clean target abs,
          )
          strip
  ]
]
