-- ===== src/Store/Servers/Seen.antt =====
-- The rows that a heartbeat leaves.
use aerodocs.Store.Servers.{
  Server, has_id, update_at, update_found, update_server_last_seen, note_last_seen,
}
use aerodocs.Base.{
  ◌≡◌, refl, ◌∙◌, ap, inl, inr, false, some, List, [], ◌∷◌, Bool-cases, any, Bytes, text_eq,
}

-- A row and what became of it: only its times may differ, and only if it is the row of the server.
pub record Seen (server : Bytes) (a b : Server) : Type 0 where
  pub same : b ≡ record a { last_seen_at = b.last_seen_at; updated_at = b.updated_at }
  pub other : text_eq a.id server ≡ false → b ≡ a

-- Two tables with as many rows, in order.
abbrev pub RowsSeen : Bytes → List Server → List Server → Type 0
RowsSeen server [] [] = Unit
RowsSeen server (a ∷ as') (b ∷ bs) = Seen server a b × RowsSeen server as' bs
RowsSeen server _ _ = ⊥

Seen-refl : (server : Bytes) (a : Server) → Seen server a a
Seen-refl server a = record { same = refl; other = λ e. refl }

pub RowsSeen-refl : (server : Bytes) (rows : List Server) → RowsSeen server rows rows
RowsSeen-refl server [] = tt
RowsSeen-refl server (a ∷ rows) = (Seen-refl server a, RowsSeen-refl server rows)

Seen-trans : (server : Bytes) (a b c : Server) → Seen server a b → Seen server b c → Seen server a c
Seen-trans server a b c p q = record {
  same =
      q.same
      ∙ ap {A = Server} (λ s. record s { last_seen_at = c.last_seen_at; updated_at = c.updated_at })
          p.same;
  other = λ e. q.other (ap {A = Server} (λ s. text_eq s.id server) p.same ∙ e) ∙ p.other e;
}

pub RowsSeen-trans :
    (server : Bytes) (xs ys zs : List Server)
    → RowsSeen server xs ys
    → RowsSeen server ys zs
    → RowsSeen server xs zs
RowsSeen-trans server [] [] [] p q = tt
RowsSeen-trans server (x ∷ xs) (y ∷ ys) (z ∷ zs) p q =
    (Seen-trans server x y z p.0 q.0, RowsSeen-trans server xs ys zs p.1 q.1)
RowsSeen-trans server [] [] (z ∷ zs) p q = absurd q
RowsSeen-trans server [] (y ∷ ys) zs p q = absurd p
RowsSeen-trans server (x ∷ xs) [] zs p q = absurd p
RowsSeen-trans server (x ∷ xs) (y ∷ ys) [] p q = absurd q

touched :
    (now server : Bytes) (rows : List Server)
    → RowsSeen server rows
        (update_at server (λ srv. record srv { last_seen_at = some now; updated_at = now }) rows)
unfolding update_at
touched now server [] = tt
touched now server (a ∷ rows) = elim (Bool-cases (has_id server a)) [
  | inl here ↦ rw here (record { same = refl; other = λ e. absurd (cc) }, touched now server rows)
  | inr away ↦ rw away (Seen-refl server a, touched now server rows)
]

pub note_last_seen-RowsSeen :
    (now server : Bytes) (rows : List Server)
    → RowsSeen server rows (note_last_seen now server rows)
unfolding note_last_seen update_server_last_seen update_found
note_last_seen-RowsSeen now server rows = elim (Bool-cases (any (has_id server) rows)) [
  | inl here ↦ rw here (touched now server rows)
  | inr gone ↦ rw gone (RowsSeen-refl server rows)
]
