-- ===== src/Base/Maps.antt =====
-- Go maps with string keys, as association lists. The order of the list stands for the order of a
-- `range` loop, which Go leaves open; an assignment puts its key first.
use Prim.Native.Nat.{suc, ◌≤◌}
use mathlib.Core.Path.{◌≡◌, refl}
use mathlib.Core.Logic.{◌≢◌, inl, inr}
use mathlib.Core.List.{List, [], ◌∷◌}
use mathlib.Core.Bool.{Bool, true}
use mathlib.Core.Option.{Option, none, some, some-injective}
use native.Mathlib.Omega.{arith}
use aerodocs.Base.Branch.{if◌then◌else◌, Bool-cases}
use aerodocs.Base.Lists.{length, keep}
use aerodocs.Base.Strings.{Bytes, text_eq, text_eq_refl, text_eq_iff, eq_of_text_eq}

abbrev pub Table {ℓ} : Type ℓ → Type ℓ
Table V = List (Bytes × V)

module _ {ℓ} {V : Type ℓ} where
  -- `v, ok := m[k]`.
  unfoldable pub lookup : Bytes → Table V → Option V
  lookup k [] = none
  lookup k ((j, v) ∷ m) = if text_eq j k then some v else lookup k m

  -- `delete(m, k)`.
  unfoldable pub delete : Bytes → Table V → Table V
  delete k [] = []
  delete k ((j, v) ∷ m) = let rest = delete k m in if text_eq j k then rest else (j, v) ∷ rest

  -- `m[k] = v`.
  unfoldable pub assign : Bytes → V → Table V → Table V
  unfolding delete
  assign k v m = (k, v) ∷ delete k m

  -- No key stands twice.
  abbrev pub Distinct : Table V → Type ℓ
  Distinct [] = Unit
  Distinct ((k, v) ∷ m) = (lookup k m ≡ none) × Distinct m

  pub lookup-delete :
      (k j : Bytes) (m : Table V)
      → lookup j (delete k m) ≡ (if text_eq k j then none else lookup j m)
  unfolding lookup delete
  lookup-delete k j [] = ground arith
  lookup-delete k j ((i, v) ∷ m) =
      ground (arith, text_eq_iff k j, text_eq_iff i k, text_eq_iff i j, lookup-delete k j m)

  pub lookup-assign :
      (k j : Bytes) (v : V) (m : Table V)
      → lookup j (assign k v m) ≡ (if text_eq k j then some v else lookup j m)
  unfolding lookup assign
  lookup-assign k j v m = ground (arith, lookup-delete k j m)

  pub lookup-delete_self : (k : Bytes) (m : Table V) → lookup k (delete k m) ≡ none
  lookup-delete_self k m = rw (lookup-delete k k m, text_eq_refl k)

  pub lookup-assign_self : (k : Bytes) (v : V) (m : Table V) → lookup k (assign k v m) ≡ some v
  lookup-assign_self k v m = rw (lookup-assign k k v m, text_eq_refl k)

  pub delete-Distinct : (k : Bytes) (m : Table V) → Distinct m → Distinct (delete k m)
  unfolding delete
  delete-Distinct k [] d = tt
  delete-Distinct k ((j, v) ∷ m) d = ground (arith, delete-Distinct k m d.1, lookup-delete k j m)

  pub assign-Distinct : (k : Bytes) (v : V) (m : Table V) → Distinct m → Distinct (assign k v m)
  unfolding assign
  assign-Distinct k v m d = (lookup-delete_self k m, delete-Distinct k m d)

  pub length-delete-le : (k : Bytes) (m : Table V) → length (delete k m) ≤ length m
  unfolding delete
  length-delete-le k [] = omega arith
  length-delete-le k ((j, v) ∷ m) = ground (arith, length-delete-le k m)

  pub length-delete-lt :
      (k : Bytes) (m : Table V) → lookup k m ≢ none → suc (length (delete k m)) ≤ length m
  unfolding delete lookup
  length-delete-lt k [] h = absurd (h refl)
  length-delete-lt k ((j, v) ∷ m) h = elim (Bool-cases (text_eq j k)) [
    | inl e ↦ rw e (ground (arith, length-delete-le k m))
    | inr e ↦ ground (arith, length-delete-lt k m (ground arith))
  ]

  pub length-assign-le : (k : Bytes) (v : V) (m : Table V) → length (assign k v m) ≤ suc (length m)
  unfolding assign
  length-assign-le k v m = omega (arith, length-delete-le k m)

  pub length-assign_old :
      (k : Bytes) (v : V) (m : Table V) → lookup k m ≢ none → length (assign k v m) ≤ length m
  unfolding assign
  length-assign_old k v m h = length-delete-lt k m h

  pub delete_fresh : (k : Bytes) (m : Table V) → lookup k m ≡ none → delete k m ≡ m
  unfolding delete lookup
  delete_fresh k [] h = refl
  delete_fresh k ((j, v) ∷ m) h = ground (arith, delete_fresh k m)

-- What holds of every entry.
module _ {ℓ κ} {V : Type ℓ} (P : Bytes → V → Type κ) where
  abbrev pub Entries : Table V → Type κ
  Entries [] = Unit
  Entries ((k, v) ∷ m) = P k v × Entries m

  pub delete-Entries : (k : Bytes) (m : Table V) → Entries m → Entries (delete k m)
  unfolding delete
  delete-Entries k [] h = tt
  delete-Entries k ((j, v) ∷ m) h = ground (arith, delete-Entries k m h.1)

  pub assign-Entries :
      (k : Bytes) (v : V) (m : Table V) → P k v → Entries m → Entries (assign k v m)
  unfolding assign
  assign-Entries k v m p h = (p, delete-Entries k m h)

  pub lookup-Entries : (k : Bytes) (m : Table V) (v : V) → Entries m → lookup k m ≡ some v → P k v
  unfolding lookup
  lookup-Entries k [] v h e = cc
  lookup-Entries k ((j, w) ∷ m) v h e = elim (Bool-cases (text_eq j k)) [
    | inl same ↦
        let eq = eq_of_text_eq j k same in let val : w ≡ v = ground arith in rw (← eq, ← val) h.0
    | inr other ↦ lookup-Entries k m v h.1 (ground arith)
  ]

-- The first entry of a key stays if it passes the test.
pub lookup-keep {ℓ} :
    {V : Type ℓ} (k : Bytes) (p : V → Bool) (v : V) (m : Table V)
    → lookup k m ≡ some v
    → p v ≡ true
    → lookup k (keep (λ e. p e.1) m) ≡ some v
unfolding lookup
lookup-keep k p v [] held passes = cc
lookup-keep k p v ((j, w) ∷ m) held passes = elim (Bool-cases (text_eq j k)) [
  | inl here ↦
      let same : w ≡ v = some-injective w v (rw here at held) in rw (same, passes, here) refl
  | inr there ↦
      let ih = lookup-keep k p v m (rw there at held) passes in
      elim (Bool-cases (p w)) [ inl yes_ ↦ rw (yes_, there) ih | inr no_ ↦ rw no_ ih ]
]
