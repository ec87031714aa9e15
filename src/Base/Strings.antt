-- ===== src/Base/Strings.antt =====
-- Go strings: lists of bytes. Equality, prefixes and substrings.
use Prim.Native.Nat.{ℕ}
use Prim.Native.Char.{code}
use Prim.Native.String.{String}
use mathlib.Core.Path.{◌≡◌, refl}
use mathlib.Core.Logic.{◌≢◌, ◌↔◌}
use mathlib.Core.Bool.{Bool, true, false, ◌&&◌, ◌||◌}
use mathlib.Core.List.{List, [], ◌∷◌, ◌++◌}
use native.Mathlib.Omega.{arith}
use aerodocs.Base.Branch.{◌==◌}
use aerodocs.Base.Lists.{All}

abbrev pub Bytes : Type 0
Bytes = List ℕ

-- The bytes of an ASCII literal.
abbrev pub text : String → Bytes
text String.[] = []
text (String.◌∷◌ c s) = code c ∷ text s

-- `a == b` on strings.
unfoldable pub text_eq : Bytes → Bytes → Bool
text_eq [] [] = true
text_eq [] (b ∷ bs) = false
text_eq (a ∷ as') [] = false
text_eq (a ∷ as') (b ∷ bs) = (a == b) && text_eq as' bs

pub text_eq_refl : (a : Bytes) → text_eq a a ≡ true
unfolding text_eq
text_eq_refl [] = refl
text_eq_refl (a ∷ as') = ground (arith, text_eq_refl as')

pub eq_of_text_eq : (a b : Bytes) → text_eq a b ≡ true → a ≡ b
unfolding text_eq
eq_of_text_eq [] [] h = refl
eq_of_text_eq [] (b ∷ bs) h = cc
eq_of_text_eq (a ∷ as') [] h = cc
eq_of_text_eq (a ∷ as') (b ∷ bs) h = ground (arith, eq_of_text_eq as' bs)

pub text_eq_iff : (a b : Bytes) → (text_eq a b ≡ true) ↔ (a ≡ b)
text_eq_iff a b = (eq_of_text_eq a b, λ e. rw e (text_eq_refl b))

-- `strings.HasPrefix(s, p)`.
unfoldable pub has_prefix : Bytes → Bytes → Bool
has_prefix s [] = true
has_prefix [] (p ∷ ps) = false
has_prefix (b ∷ bs) (p ∷ ps) = (b == p) && has_prefix bs ps

-- `strings.Contains(s, sub)`.
unfoldable pub contains : Bytes → Bytes → Bool
unfolding has_prefix
contains [] sub = has_prefix [] sub
contains (b ∷ bs) sub = has_prefix (b ∷ bs) sub || contains bs sub

pub has_prefix-append : (p s : Bytes) → has_prefix (p ++ s) p ≡ true
unfolding has_prefix
has_prefix-append [] s = refl
has_prefix-append (p ∷ ps) s = ground (arith, has_prefix-append ps s)

pub eq_of_has_prefix : (s p : Bytes) → has_prefix s p ≡ true → (rest : Bytes) × (s ≡ p ++ rest)
unfolding has_prefix
eq_of_has_prefix s [] h = (s, refl)
eq_of_has_prefix [] (p ∷ ps) h = cc
eq_of_has_prefix (b ∷ bs) (p ∷ ps) h =
    let (rest, e) = eq_of_has_prefix bs ps (ground arith) in (rest, ground arith)

-- No byte of the text is `c`.
abbrev pub Lacks : ℕ → Bytes → Type 0
Lacks c s = All (λ b. b ≢ c) s

-- Up to the first `c`, two texts that agree have the same parts.
pub split_unique :
    (c : ℕ) (a a' b b' : Bytes)
    → Lacks c a
    → Lacks c a'
    → a ++ c ∷ b ≡ a' ++ c ∷ b'
    → (a ≡ a') × (b ≡ b')
split_unique c [] [] b b' h h' e = ground arith
split_unique c [] (x ∷ a') b b' h h' e = absurd (h'.0 (ground arith))
split_unique c (x ∷ a) [] b b' h h' e = absurd (h.0 (ground arith))
split_unique c (x ∷ a) (y ∷ a') b b' h h' e = ground (arith, split_unique c a a' b b' h.1 h'.1)

pub ne_of_text_eq : (a b : Bytes) → text_eq a b ≡ false → a ≢ b
ne_of_text_eq a b h e = ground (arith, text_eq_iff a b)
