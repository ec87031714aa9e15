-- ===== src/Store/Servers/Names.antt =====
-- A server keeps its name until it is deleted or updated.
use aerodocs.Store.Servers.{
  Server, has_id, has_name, query_row, create_server, update_at, update_server, delete_server,
  delete_servers, activate_server, activated, update_server_status, update_server_ip,
  update_server_last_seen,
}
use aerodocs.Store.Servers.Updates.{update_found-value}
use aerodocs.Store.Servers.Unique.{
  Change, creates, updates, deletes, deletes_all, activates, sets_status, sets_ip, sets_last_seen,
  kept, apply, run,
}
use aerodocs.Base.{
  ◌≡◌, refl, inl, inr, Bool, true, false, not, ◌&&◌, Option, none, some, List, [], ◌∷◌, ◌++◌, arith,
  Bool-cases, keep, any, Bytes, text_eq, text_eq_iff,
}

-- A row with an id and a name.
abbrev pub is_named : Bytes → Bytes → Server → Bool
is_named id name srv = has_id id srv && has_name name srv

-- Whether a change can take a server's name from it: its deletion, or a new name.
abbrev pub frees : Bytes → Change → Bool
frees id (updates now other name labels) = text_eq other id
frees id (deletes other) = text_eq other id
frees id (deletes_all others) = any (λ other. text_eq other id) others
frees id _ = false

updated-Named :
    (id name other : Bytes) (change : Server → Server)
    → ((srv : Server) → (change srv).id ≡ srv.id)
    → ((srv : Server)
        → has_id id srv ≡ true
        → has_id other srv ≡ true
        → (change srv).name ≡ srv.name)
    → (rows : List Server) → any (is_named id name) rows ≡ true
    → any (is_named id name) (update_at other change rows) ≡ true
unfolding update_at
updated-Named id name other change same_id same_name [] here = cc
updated-Named id name other change same_id same_name (srv ∷ rows) here =
    let rest = updated-Named id name other change same_id same_name rows in
    elim (Bool-cases (has_id other srv)) [
      | inr away ↦ ground (arith, away, rest, here)
      | inl hit ↦ elim (Bool-cases (has_id id srv)) [
        | inr not_it ↦ ground (arith, hit, not_it, rest, here, same_id srv)
        | inl it ↦ rw (hit, same_id srv, same_name srv it hit) (ground (arith, it, rest, here))
      ]
    ]

found-Named :
    (id name other : Bytes) (change : Server → Server)
    → ((srv : Server) → (change srv).id ≡ srv.id)
    → ((srv : Server)
        → has_id id srv ≡ true
        → has_id other srv ≡ true
        → (change srv).name ≡ srv.name)
    → (rows : List Server) (o : Option (List Server))
    → ((rows' : List Server) → o ≡ some rows' → rows' ≡ update_at other change rows)
    → any (is_named id name) rows ≡ true
    → any (is_named id name) (kept rows o) ≡ true
found-Named id name other change same_id same_name rows none is here = here
found-Named id name other change same_id same_name rows (some rows') is here =
    rw (is rows' refl) (updated-Named id name other change same_id same_name rows here)

kept-Named :
    (id name : Bytes) (p : Server → Bool)
    → ((srv : Server) → has_id id srv ≡ true → p srv ≡ true)
    → (rows : List Server) → any (is_named id name) rows ≡ true
    → any (is_named id name) (keep p rows) ≡ true
kept-Named id name p spares [] here = cc
kept-Named id name p spares (srv ∷ rows) here =
    ground (arith, kept-Named id name p spares rows, spares srv, here)

appended-Named :
    (id name : Bytes) (rows new : List Server)
    → any (is_named id name) rows ≡ true
    → any (is_named id name) (rows ++ new) ≡ true
appended-Named id name [] new here = cc
appended-Named id name (srv ∷ rows) new here = ground (arith, appended-Named id name rows new, here)

-- Ids that differ are not both those of one row.
apart :
    (id other : Bytes) (srv : Server)
    → text_eq other id ≡ false
    → has_id id srv ≡ true
    → has_id other srv ≡ false
apart id other srv ne it =
    ground (arith, ne, it, text_eq_iff srv.id id, text_eq_iff srv.id other, text_eq_iff other id)

not_among :
    (id : Bytes) (others : List Bytes) (srv : Server)
    → any (λ other. text_eq other id) others ≡ false
    → has_id id srv ≡ true
    → any (λ other. has_id other srv) others ≡ false
not_among id [] srv ne it = refl
not_among id (other ∷ others) srv ne it =
    let first : text_eq other id ≡ false = ground (arith, ne) in
    let rest : any (λ o. text_eq o id) others ≡ false = ground (arith, ne) in
    ground (arith, apart id other srv first it, not_among id others srv rest it)

apply-Named :
    (id name : Bytes) (c : Change) (rows : List Server)
    → frees id c ≡ false
    → any (is_named id name) rows ≡ true
    → any (is_named id name) (apply c rows) ≡ true
unfolding apply create_server update_server delete_server delete_servers activate_server activated
    update_server_status update_server_ip update_server_last_seen
apply-Named id name (creates new) rows spared here =
    ground (arith, appended-Named id name rows (new ∷ []), here)
apply-Named id name (updates now other new labels) rows spared here =
    let change : Server → Server =
      λ srv. record srv { name = new; labels = labels; updated_at = now } in
    found-Named id name other change (λ srv. refl)
      (λ srv it hit. absurd (ground (arith, apart id other srv spared it, hit))) rows
      (update_server now other new labels rows)
      (λ rows' e. update_found-value other change rows rows' (ground (arith, e))) here
apply-Named id name (deletes other) rows spared here = ground (
  arith,
  kept-Named id name (λ srv. not (has_id other srv))
      (λ srv it. ground (arith, apart id other srv spared it)) rows here,
  here,
)
apply-Named id name (deletes_all others) rows spared here =
    kept-Named id name (λ srv. not (any (λ other. has_id other srv) others))
      (λ srv it. ground (arith, not_among id others srv spared it)) rows here
apply-Named id name (activates now other a) rows spared here =
    found-Named id name other (activated now a) (λ srv. refl) (λ srv it hit. refl) rows
      (activate_server now other a rows)
      (λ rows' e. update_found-value other (activated now a) rows rows' e) here
apply-Named id name (sets_status now other status) rows spared here =
    let change : Server → Server = λ srv. record srv { status = status; updated_at = now } in
    found-Named id name other change (λ srv. refl) (λ srv it hit. refl) rows
      (update_server_status now other status rows)
      (λ rows' e. update_found-value other change rows rows' (ground (arith, e))) here
apply-Named id name (sets_ip now other ip) rows spared here =
    updated-Named id name other (λ srv. record srv { ip_address = some ip; updated_at = now })
      (λ srv. refl) (λ srv it hit. refl) rows here
apply-Named id name (sets_last_seen now other) rows spared here =
    let change : Server → Server =
      λ srv. record srv { last_seen_at = some now; updated_at = now } in
    found-Named id name other change (λ srv. refl) (λ srv it hit. refl) rows
      (update_server_last_seen now other rows)
      (λ rows' e. update_found-value other change rows rows' e) here

pub run-Named :
    (id name : Bytes) (cs : List Change) (rows : List Server)
    → any (frees id) cs ≡ false
    → any (is_named id name) rows ≡ true
    → any (is_named id name) (run cs rows) ≡ true
run-Named id name [] rows spared here = here
run-Named id name (c ∷ cs) rows spared here =
    let first : frees id c ≡ false = ground (arith, spared) in
    let rest : any (frees id) cs ≡ false = ground (arith, spared) in
    run-Named id name cs (apply c rows) rest (apply-Named id name c rows first here)

pub name_found :
    (id name : Bytes) (rows : List Server)
    → any (is_named id name) rows ≡ true
    → (srv : Server) × (query_row (has_name name) rows ≡ some srv)
unfolding query_row
name_found id name [] here = cc
name_found id name (srv ∷ rows) here = elim (Bool-cases (has_name name srv)) [
  | inl yes_ ↦ (srv, rw yes_ refl)
  | inr no_ ↦
      let (found, e) = name_found id name rows (ground (arith, no_, here)) in (found, rw no_ e)
]
