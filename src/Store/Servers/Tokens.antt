-- ===== src/Store/Servers/Tokens.antt =====
-- A registration token is used up by the activation of its server.
use aerodocs.Store.Servers.{
  Server, has_id, has_token, query_row, get_server_by_token, update_at, update_found, Activation,
  activated, activate_server,
}
use aerodocs.Store.Servers.Updates.{count, count-update_at-le}
use aerodocs.Base.{
  ◌≤◌, ◌≡◌, refl, sym, inl, inr, Bool, true, false, some, List, [], ◌∷◌, arith, Bool-cases, any,
  Bytes, text_eq_refl,
}

-- What the row that a query finds is.
pub query_row-found :
    (p : Server → Bool) (rows : List Server) (srv : Server)
    → query_row p rows ≡ some srv
    → (p srv ≡ true) × (any (has_id srv.id) rows ≡ true)
unfolding query_row
query_row-found p [] srv e = cc
query_row-found p (first ∷ rows) srv e = elim (Bool-cases (p first)) [
  | inl passes ↦
      let same : first ≡ srv = ground (arith, passes, e) in
      rw (sym same) (passes, ground (arith, text_eq_refl first.id))
  | inr fails ↦
      let (held, there) = query_row-found p rows srv (ground (arith, fails, e)) in
      (held, ground (arith, there))
]

activated_row :
    (now token : Bytes) (a : Activation) (srv : Server)
    → has_token token (activated now a srv) ≡ false
unfolding activated
activated_row now token a srv = refl

used_up :
    (now token : Bytes) (a : Activation) (rows : List Server) (srv : Server)
    → query_row (has_token token) rows ≡ some srv
    → count (has_token token) rows ≤ 1
    → count (has_token token) (update_at srv.id (activated now a) rows) ≡ 0
unfolding query_row update_at
used_up now token a [] srv e one = refl
used_up now token a (first ∷ rows) srv e one = elim (Bool-cases (has_token token first)) [
  | inl passes ↦
      let same : first ≡ srv = ground (arith, passes, e) in
      let rest =
        count-update_at-le (has_token token) srv.id (activated now a)
          (λ s held. absurd (ground (arith, activated_row now token a s, held))) rows in
      let here : has_id srv.id first ≡ true = rw same (text_eq_refl srv.id) in
      ground (arith, here, rest, one, passes, activated_row now token a first)
  | inr fails ↦ ground (
    arith,
    fails,
    activated_row now token a first,
    used_up now token a rows srv (ground (arith, fails, e)) (ground (arith, fails, one)),
  )
]

-- The activation of the server that has a token leaves no row with it.
pub activate_server-used :
    (now token : Bytes) (a : Activation) (rows : List Server) (srv : Server)
    → get_server_by_token token rows ≡ some srv
    → count (has_token token) rows ≤ 1
    → (rows' : List Server) × ((activate_server now srv.id a rows ≡ some rows')
        × (count (has_token token) rows' ≡ 0))
unfolding get_server_by_token activate_server update_found
activate_server-used now token a rows srv e one =
    let there = (query_row-found (has_token token) rows srv e).1 in
    (
      update_at srv.id (activated now a) rows,
      (rw (there, activate_server) refl, used_up now token a rows srv e one),
    )
