-- ===== src/Store/Servers/Unique.antt =====
-- The table's operations, in any order.
use aerodocs.Store.Servers.{
  Server, has_id, is_text, has_token, conflicts, create_server, update_at, update_server,
  delete_server, delete_servers, Activation, activated, activate_server, update_server_status,
  update_server_ip, update_server_last_seen,
}
use aerodocs.Store.Servers.Updates.{
  Narrows, count, count-update_at-le, count-keep-le, count-append, count_none, update_found-value,
}
use aerodocs.Base.{
  ◌≤◌, ◌≡◌, refl, inl, inr, Bool, true, false, not, Option, none, some, List, [], ◌∷◌, arith,
  Bool-cases, any, Bytes, eq_of_text_eq, text_eq_iff,
}

-- An operation that changes the table, with the time of its call.
pub data Change : Type 0 where
  creates : Server → Change
  updates : Bytes → Bytes → Bytes → Bytes → Change
  deletes : Bytes → Change
  deletes_all : List Bytes → Change
  activates : Bytes → Bytes → Activation → Change
  sets_status sets_ip : Bytes → Bytes → Bytes → Change
  sets_last_seen : Bytes → Bytes → Change

-- The rows after an operation, which an error leaves as they are.
abbrev pub kept : List Server → Option (List Server) → List Server
kept rows none = rows
kept rows (some rows') = rows'

unfoldable pub apply : Change → List Server → List Server
apply (creates new) rows = kept rows (create_server new rows)
apply (updates now id name labels) rows = kept rows (update_server now id name labels rows)
apply (deletes id) rows = kept rows (delete_server id rows)
apply (deletes_all ids) rows = delete_servers ids rows
apply (activates now id a) rows = kept rows (activate_server now id a rows)
apply (sets_status now id status) rows = kept rows (update_server_status now id status rows)
apply (sets_ip now id ip) rows = update_server_ip now id ip rows
apply (sets_last_seen now id) rows = kept rows (update_server_last_seen now id rows)

abbrev pub run : List Change → List Server → List Server
run [] rows = rows
run (c ∷ cs) rows = run cs (apply c rows)

-- Whether a change inserts a row with a registration token.
abbrev pub brings : Bytes → Change → Bool
brings token (creates new) = is_text new.registration_token token
brings token _ = false

found-le :
    (p : Server → Bool) (id : Bytes) (change : Server → Server)
    → Narrows p change
    → (rows : List Server) (o : Option (List Server))
    → ((rows' : List Server) → o ≡ some rows' → rows' ≡ update_at id change rows)
    → count p (kept rows o) ≤ count p rows
found-le p id change narrows rows none is = omega arith
found-le p id change narrows rows (some rows') is =
    rw (is rows' refl) (count-update_at-le p id change narrows rows)

-- How many rows hold a token, after a change that does not insert one with it.
pub count-apply-le :
    (token : Bytes) (c : Change) (rows : List Server)
    → brings token c ≡ false
    → count (has_token token) (apply c rows) ≤ count (has_token token) rows
unfolding apply create_server update_server delete_server delete_servers activate_server activated
    update_server_status update_server_ip update_server_last_seen
count-apply-le token (creates new) rows old =
    ground (arith, count-append (has_token token) rows (new ∷ []), old)
count-apply-le token (updates now id name labels) rows old =
    let change : Server → Server =
      λ srv. record srv { name = name; labels = labels; updated_at = now } in
    found-le (has_token token) id change (λ srv e. e) rows (update_server now id name labels rows)
      (λ rows' e. update_found-value id change rows rows' (ground (arith, e)))
count-apply-le token (deletes id) rows old =
    ground (arith, count-keep-le (has_token token) (λ srv. not (has_id id srv)) rows)
count-apply-le token (deletes_all ids) rows old =
    count-keep-le (has_token token) (λ srv. not (any (λ id. has_id id srv) ids)) rows
count-apply-le token (activates now id a) rows old =
    found-le (has_token token) id (activated now a) (λ srv e. cc) rows
      (activate_server now id a rows)
      (λ rows' e. update_found-value id (activated now a) rows rows' e)
count-apply-le token (sets_status now id status) rows old =
    let change : Server → Server = λ srv. record srv { status = status; updated_at = now } in
    found-le (has_token token) id change (λ srv e. e) rows (update_server_status now id status rows)
      (λ rows' e. update_found-value id change rows rows' (ground (arith, e)))
count-apply-le token (sets_ip now id ip) rows old =
    count-update_at-le (has_token token) id
      (λ srv. record srv { ip_address = some ip; updated_at = now }) (λ srv e. e) rows
count-apply-le token (sets_last_seen now id) rows old =
    let change : Server → Server =
      λ srv. record srv { last_seen_at = some now; updated_at = now } in
    found-le (has_token token) id change (λ srv e. e) rows (update_server_last_seen now id rows)
      (λ rows' e. update_found-value id change rows rows' e)

same_token :
    (token : Bytes) (new srv : Server)
    → is_text new.registration_token token ≡ true
    → has_token token srv ≡ true
    → conflicts new srv ≡ true
unfolding conflicts
same_token token new srv e held =
    elim new.registration_token
        as (λ o.
          is_text o token ≡ true → conflicts (record new { registration_token = o }) srv ≡ true) [
            | none ↦ λ e. cc
            | some t ↦ λ e. ground (arith, eq_of_text_eq t token e, text_eq_iff t token, held)
          ]
      e

-- No two rows have the same token.
abbrev pub OneEach : List Server → Type 0
OneEach rows = (token : Bytes) → count (has_token token) rows ≤ 1

created-OneEach :
    (new : Server) (rows : List Server) → OneEach rows → OneEach (apply (creates new) rows)
unfolding apply create_server
created-OneEach new rows one token = elim (Bool-cases (brings token (creates new))) [
  | inr other ↦ omega (arith, count-apply-le token (creates new) rows other, one token)
  | inl same ↦ elim (Bool-cases (any (conflicts new) rows)) [
    | inl clash ↦ ground (arith, clash, one token)
    | inr clear ↦ ground (
      arith,
      clear,
      count-append (has_token token) rows (new ∷ []),
      one token,
      count_none (has_token token) (conflicts new) (λ srv held. same_token token new srv same held)
          rows clear,
    )
  ]
]

brings-creates :
    (token : Bytes) (c : Change) → brings token c ≡ true → (new : Server) × (c ≡ creates new)
brings-creates token (creates new) e = (new, refl)
brings-creates token _ e = cc

apply-OneEach : (c : Change) (rows : List Server) → OneEach rows → OneEach (apply c rows)
apply-OneEach c rows one token = elim (Bool-cases (brings token c)) [
  | inr other ↦ omega (arith, count-apply-le token c rows other, one token)
  | inl same ↦
      let (new, e) = brings-creates token c same in rw e (created-OneEach new rows one token)
]

pub run-OneEach : (cs : List Change) (rows : List Server) → OneEach rows → OneEach (run cs rows)
run-OneEach [] rows one = one
run-OneEach (c ∷ cs) rows one = run-OneEach cs (apply c rows) (apply-OneEach c rows one)

-- A token that no row has is not there later, if none is inserted with it.
pub run-used :
    (token : Bytes) (cs : List Change) (rows : List Server)
    → any (brings token) cs ≡ false
    → count (has_token token) rows ≡ 0
    → count (has_token token) (run cs rows) ≡ 0
run-used token [] rows old gone = gone
run-used token (c ∷ cs) rows old gone =
    let here : brings token c ≡ false = ground (arith, old) in
    let later : any (brings token) cs ≡ false = ground (arith, old) in
    run-used token cs (apply c rows) later (omega (arith, count-apply-le token c rows here, gone))
