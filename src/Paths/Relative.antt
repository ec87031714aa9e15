-- ===== src/Paths/Relative.antt =====
-- A relative path stays relative when it is cleaned.
use aerodocs.Paths.{
  dot, dot_dot, slash, split, join, drop_last, go_up, enter, resolve, is_abs, words, clean,
}
use aerodocs.Paths.Laws.{AllSingle, split-AllSingle, drop_last-All}
use aerodocs.Base.{
  ◌≡◌, refl, ◌≢◌, inl, inr, Bool, false, ◌||◌, List, [], ◌∷◌, ◌++◌, arith, Bool-cases, Option-cases,
  take, get_last?, All, All-append, Bytes, text_eq, text_eq_iff, has_prefix, Lacks,
}

abbrev Named : Bytes → Type 0
Named w = (w ≢ []) × Lacks slash w

dot_dot-Named : Named dot_dot
dot_dot-Named = (λ e. cc, omega arith)

go_up-Named : (r : Bool) (ws : List Bytes) → All Named ws → All Named (go_up r ws)
unfolding go_up
go_up-Named r ws h =
    let more = All-append Named ws (dot_dot ∷ []) h (dot_dot-Named, tt) in
    let less = drop_last-All Named ws h in
    elim (Option-cases (get_last? ws)) [
      | inl gone ↦ elim (Bool-cases r) [
        | inl e ↦ let value : go_up r ws ≡ ws = rw (gone, e, go_up) refl in rw value h
        | inr e ↦
            let value : go_up r ws ≡ ws ++ dot_dot ∷ [] = rw (gone, e, go_up) refl in rw value more
      ]
      | inr (top, held) ↦ elim (Bool-cases (text_eq top dot_dot)) [
        | inl e ↦
            let value : go_up r ws ≡ ws ++ dot_dot ∷ [] = rw (held, e, go_up) refl in rw value more
        | inr e ↦ let value : go_up r ws ≡ drop_last ws = rw (held, e, go_up) refl in rw value less
      ]
    ]

enter-Named :
    (r : Bool) (w : Bytes) (ws : List Bytes)
    → Lacks slash w
    → All Named ws
    → All Named (enter r w ws)
unfolding enter
enter-Named r w ws single h = elim (Bool-cases (text_eq w [] || text_eq w dot)) [
  | inl skip ↦ rw skip h
  | inr take ↦ elim (Bool-cases (text_eq w dot_dot)) [
    | inl up ↦ rw (take, up) (go_up-Named r ws h)
    | inr down ↦
        let full : w ≢ [] = ground (arith, text_eq_iff w []) in
        rw (take, down) (All-append Named ws (w ∷ []) h ((full, single), tt))
  ]
]

resolve-Named :
    (r : Bool) (ws before : List Bytes)
    → AllSingle ws
    → All Named before
    → All Named (resolve r ws before)
unfolding resolve
resolve-Named r [] before s h = h
resolve-Named r (w ∷ ws) before s h =
    resolve-Named r ws (enter r w before) s.1 (enter-Named r w before s.0 h)

words-Named : (p : Bytes) → All Named (words p)
unfolding words
words-Named p = resolve-Named (is_abs p) (split p) [] (split-AllSingle p) tt

append_relative : (w rest : Bytes) → Named w → is_abs (w ++ rest) ≡ false
unfolding is_abs has_prefix
append_relative [] rest h = absurd (h.0 refl)
append_relative (a ∷ w) rest h = ground (arith, h.1.0)

append_nil : (w : Bytes) → w ++ [] ≡ w
append_nil [] = refl
append_nil (a ∷ w) = rw (append_nil w)

join-relative : (ws : List Bytes) → All Named ws → is_abs (join ws) ≡ false
unfolding join is_abs has_prefix
join-relative [] h = refl
join-relative (w ∷ []) h = let e = append_relative w [] h.0 in rw (← append_nil w) e
join-relative (w ∷ v ∷ ws) h = append_relative w (slash ∷ join (v ∷ ws)) h.0

dot-relative : is_abs dot ≡ false
unfolding is_abs has_prefix
dot-relative = refl

pub clean-relative : (p : Bytes) → is_abs p ≡ false → is_abs (clean p) ≡ false
unfolding clean
clean-relative p h =
    let body = join-relative (words p) (words-Named p) in
    elim (Bool-cases (text_eq (join (words p)) [])) [
      | inl e ↦ let value : clean p ≡ dot = rw (h, e, clean) refl in rw value dot-relative
      | inr e ↦ let value : clean p ≡ join (words p) = rw (h, e, clean) refl in rw value body
    ]
