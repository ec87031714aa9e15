-- ===== src/Store/Servers/Updates.antt =====
-- Updates of the table, seen through a test of its rows.
use aerodocs.Store.Servers.{Server, query_row, update_at, update_found}
use aerodocs.Base.{
  ℕ, ◌+◌, ◌≤◌, ◌≡◌, refl, Bool, true, false, none, some, List, [], ◌∷◌, ◌++◌, arith, length, keep,
  any, Bytes,
}

-- A change after which no more rows pass a test.
abbrev pub Narrows : (Server → Bool) → (Server → Server) → Type 0
Narrows p change = (srv : Server) → p (change srv) ≡ true → p srv ≡ true

-- The number of rows that pass.
abbrev pub count : (Server → Bool) → List Server → ℕ
count p rows = length (keep p rows)

pub count-update_at-le :
    (p : Server → Bool) (id : Bytes) (change : Server → Server)
    → Narrows p change
    → (rows : List Server) → count p (update_at id change rows) ≤ count p rows
unfolding update_at
count-update_at-le p id change narrows [] = omega arith
count-update_at-le p id change narrows (srv ∷ rows) =
    ground (arith, count-update_at-le p id change narrows rows, narrows srv)

pub count-keep-le :
    (p q : Server → Bool) (rows : List Server) → count p (keep q rows) ≤ count p rows
count-keep-le p q [] = omega arith
count-keep-le p q (srv ∷ rows) = ground (arith, count-keep-le p q rows)

pub count-append :
    (p : Server → Bool) (rows new : List Server)
    → count p (rows ++ new) ≡ count p rows + count p new
count-append p [] new = omega arith
count-append p (srv ∷ rows) new = ground (arith, count-append p rows new)

-- No row passes that no row did.
pub count_none :
    (p q : Server → Bool)
    → ((srv : Server) → p srv ≡ true → q srv ≡ true)
    → (rows : List Server) → any q rows ≡ false
    → count p rows ≡ 0
count_none p q sub [] e = refl
count_none p q sub (srv ∷ rows) e = ground (arith, count_none p q sub rows, sub srv, e)

pub query_row-none :
    (p : Server → Bool) (rows : List Server) → count p rows ≡ 0 → query_row p rows ≡ none
unfolding query_row
query_row-none p [] e = refl
query_row-none p (srv ∷ rows) e = ground (arith, query_row-none p rows, e)

pub update_found-value :
    (id : Bytes) (change : Server → Server) (rows rows' : List Server)
    → update_found id change rows ≡ some rows'
    → rows' ≡ update_at id change rows
unfolding update_found
update_found-value id change rows rows' e = ground (arith, e)
