-- ===== src/Paths.antt =====
-- What hub/ and agent/ use of Go's path/filepath on Unix: a path as a list of words.
pub mod Laws
pub mod Rel
pub mod Relative
use aerodocs.Base.{
  ℕ, zero, suc, ◌+◌, ◌-◌, ◌*◌, ◌/◌, ◌%◌, ◌^◌, ◌≤◌, ◌<◌, ◌≡◌, refl, sym, ap, ◌∙◌, ◌≢◌, ◌↔◌, ◌⊎◌, inl,
  inr, Bool, true, false, not, ◌&&◌, ◌||◌, Option, none, some, List, [], ◌∷◌, ◌++◌, map, arith, ltb,
  leb, ◌==◌, ==_iff, if◌then◌else◌, Bool-cases, Option-cases, ◌>>=◌, length, length-append, take,
  drop, take-append-drop, length-take, length-drop, get_last?, keep, length-keep-le, any, All,
  All-append, All-keep, Bytes, text, text_eq, text_eq_refl, eq_of_text_eq, text_eq_iff,
  ne_of_text_eq, has_prefix, contains, has_prefix-append, eq_of_has_prefix, Lacks, split_unique,
  Table, lookup, delete, assign, Distinct, lookup-delete, lookup-assign, lookup-delete_self,
  lookup-assign_self, delete-Distinct, assign-Distinct, length-delete-le, length-delete-lt,
  length-assign-le, length-assign_old, delete_fresh, Entries, delete-Entries, assign-Entries,
  lookup-Entries, lookup-keep,
}

abbrev pub dot : Bytes
dot = text "."

abbrev pub dot_dot : Bytes
dot_dot = text ".."

abbrev pub slash : ℕ
slash = 47

abbrev pub push_head : ℕ → List Bytes → List Bytes
push_head c [] = (c ∷ []) ∷ []
push_head c (w ∷ ws) = (c ∷ w) ∷ ws

-- `strings.Split(p, "/")`.
unfoldable pub split : Bytes → List Bytes
split [] = [] ∷ []
split (c ∷ cs) = let rest = split cs in if c == slash then [] ∷ rest else push_head c rest

unfoldable pub join : List Bytes → Bytes
join [] = []
join (w ∷ []) = w
join (w ∷ v ∷ ws) = w ++ slash ∷ join (v ∷ ws)

abbrev pub drop_last : List Bytes → List Bytes
drop_last [] = []
drop_last (w ∷ []) = []
drop_last (w ∷ v ∷ ws) = w ∷ drop_last (v ∷ ws)

-- One word `..`: at the root it is dropped, after another `..` it stays.
unfoldable pub go_up : Bool → List Bytes → List Bytes
go_up rooted before = elim (get_last? before) [
  | none ↦ if rooted then before else before ++ dot_dot ∷ []
  | some top ↦ if text_eq top dot_dot then before ++ dot_dot ∷ [] else drop_last before
]

unfoldable pub enter : Bool → Bytes → List Bytes → List Bytes
unfolding go_up
enter rooted w before =
    if text_eq w [] || text_eq w dot
    then before
    else if text_eq w dot_dot
    then go_up rooted before
    else before ++ w ∷ []

unfoldable pub resolve : Bool → List Bytes → List Bytes → List Bytes
unfolding enter
resolve rooted [] before = before
resolve rooted (w ∷ ws) before = resolve rooted ws (enter rooted w before)

-- `filepath.IsAbs(p)`.
unfoldable pub is_abs : Bytes → Bool
is_abs p = has_prefix p (slash ∷ [])

unfoldable pub words : Bytes → List Bytes
unfolding is_abs
words p = resolve (is_abs p) (split p) []

unfoldable pub clean : Bytes → Bytes
unfolding is_abs
clean p =
    let body = join (words p) in
    if is_abs p then slash ∷ body else if text_eq body [] then dot else body

-- `filepath.Base(p)`.
unfoldable pub base : Bytes → Bytes
base p = if text_eq p [] then dot else elim (get_last? (keep (λ w. not (text_eq w [])) (split p))) [
  | none ↦ slash ∷ []
  | some w ↦ w
]

-- `filepath.Join(dir, name)`, where neither is empty.
unfoldable pub join_path : Bytes → Bytes → Bytes
join_path dir name = clean (dir ++ slash ∷ name)

-- The words of two paths after those that they share.
unfoldable pub strip_common : List Bytes → List Bytes → List Bytes × List Bytes
strip_common [] ts = ([], ts)
strip_common (b ∷ bs) [] = (b ∷ bs, [])
strip_common (b ∷ bs) (t ∷ ts) =
    let rest = strip_common bs ts in if text_eq b t then rest else (b ∷ bs, t ∷ ts)

-- The relative path of a target below the words `bs` and `ts` in which they differ.
unfoldable pub climb : List Bytes → List Bytes → Option Bytes
climb [] ts = some (join ts)
climb (b ∷ bs) ts =
    if text_eq b dot_dot then none else some (join (dot_dot ∷ map (λ w. dot_dot) bs ++ ts))

-- The words that `Rel` compares: it takes a root `.` for no word, but not a target.
unfoldable pub target_words : Bytes → List Bytes
target_words t = if text_eq t dot then dot ∷ [] else words t

-- `filepath.Rel(root, target)`; none is its error.
unfoldable pub rel : Bytes → Bytes → Option Bytes
unfolding is_abs target_words
rel root target =
    let b = clean root in
    let t = clean target in
    if text_eq b t
    then some dot
    else if (if is_abs b then is_abs t else not (is_abs t))
    then (let (bs, ts) = strip_common (words b) (target_words t) in climb bs ts)
    else none
