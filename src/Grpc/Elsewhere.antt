-- ===== src/Grpc/Elsewhere.antt =====
-- Changes of one key of a table.
use aerodocs.Base.{
  ◌≡◌, refl, false, Bytes, text_eq, Table, lookup, delete, assign, lookup-delete, lookup-assign,
}

-- Every other key of a table keeps its value.
abbrev pub Elsewhere {ℓ} : {V : Type ℓ} → Bytes → Table V → Table V → Type ℓ
Elsewhere key m m' = (j : Bytes) → text_eq key j ≡ false → lookup j m' ≡ lookup j m

pub assign-Elsewhere {ℓ} :
    {V : Type ℓ} (key : Bytes) (v : V) (m : Table V) → Elsewhere key m (assign key v m)
assign-Elsewhere key v m j other = rw (lookup-assign key j v m, other) refl

pub delete-Elsewhere {ℓ} : {V : Type ℓ} (key : Bytes) (m : Table V) → Elsewhere key m (delete key m)
delete-Elsewhere key m j other = rw (lookup-delete key j m, other) refl
