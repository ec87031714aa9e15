-- ===== src/Server/LogSlots/Laws.antt =====
-- The limits on log streams hold whatever is opened and closed.
use aerodocs.Server.LogSlots.{
  max_admin_log_streams_per_user, max_agent_log_streams, prefix_of, slot_key, is_admin, count_of,
  total_for_server, try_acquire_log_tail_slot, release_log_tail_slot,
}
use aerodocs.Base.{
  ℕ, suc, ◌+◌, ◌-◌, ◌≤◌, ◌≡◌, refl, ap, ◌∙◌, inl, inr, Bool, true, none, List, [], ◌∷◌, ◌++◌, arith,
  leb, if◌then◌else◌, Bool-cases, Bytes, text_eq, eq_of_text_eq, has_prefix, has_prefix-append,
  eq_of_has_prefix, Lacks, split_unique, Table, lookup, delete, assign, Distinct, lookup-delete,
  lookup-assign, delete-Distinct, assign-Distinct, delete_fresh,
}

-- The streams of a server.
unfoldable pub total : Bytes → Table ℕ → ℕ
total server [] = 0
total server ((k, count) ∷ m) =
    let rest = total server m in if has_prefix k (prefix_of server) then count + rest else rest

append_assoc : (as' bs cs : Bytes) → (as' ++ bs) ++ cs ≡ as' ++ (bs ++ cs)
append_assoc [] bs cs = refl
append_assoc (a ∷ as') bs cs = rw (append_assoc as' bs cs)

key_prefix : (server user : Bytes) → has_prefix (slot_key server user) (prefix_of server) ≡ true
key_prefix server user =
    let e = has_prefix-append (prefix_of server) user in rw (← append_assoc server (58 ∷ []) user) e

total_for_server_lem :
    (server user : Bytes) (m : Table ℕ)
    → total_for_server (slot_key server user) (prefix_of server) m ≡ total server m
unfolding total_for_server total
total_for_server_lem server user [] = refl
total_for_server_lem server user ((k, count) ∷ m) =
    elim (Bool-cases (text_eq k (slot_key server user))) [
      | inl same ↦
          let here : has_prefix k (prefix_of server) ≡ true =
            rw (eq_of_text_eq k (slot_key server user) same) (key_prefix server user) in
          rw (same, here, total_for_server_lem server user m) refl
      | inr other ↦ rw (other, total_for_server_lem server user m) refl
    ]

abbrev pub share : Bool → ℕ → ℕ
share b n = if b then n else 0

-- A key's share of the total of a server.
total-delete :
    (server key : Bytes) (m : Table ℕ)
    → Distinct m
    → total server m
      ≡ total server (delete key m) + share (has_prefix key (prefix_of server)) (count_of key m)
unfolding total delete lookup
total-delete server key [] d = ground arith
total-delete server key ((k, count) ∷ m) d =
    let ih = total-delete server key m d.1 in
    elim (Bool-cases (text_eq k key)) [
      | inl same ↦
          let eq = eq_of_text_eq k key same in
          let gone : lookup key m ≡ none = rw (← eq) d.0 in
          rw (same, delete_fresh key m gone, eq)
            (elim (Bool-cases (has_prefix key (prefix_of server))) [
              | inl p ↦ rw p (omega arith)
              | inr p ↦ rw p (omega arith)
            ])
      | inr other ↦ elim (Bool-cases (has_prefix k (prefix_of server))) [
        | inl p ↦ rw (other, p) (omega (arith, ih))
        | inr p ↦ rw (other, p) ih
      ]
    ]

total-assign :
    (server key : Bytes) (n : ℕ) (m : Table ℕ)
    → Distinct m
    → total server (assign key n m) + share (has_prefix key (prefix_of server)) (count_of key m)
      ≡ total server m + share (has_prefix key (prefix_of server)) n
unfolding total assign
total-assign server key n m d =
    let parts = total-delete server key m d in
    elim (Bool-cases (has_prefix key (prefix_of server))) [
      | inl p ↦ let parts' = rw p at parts in rw p (omega (arith, parts'))
      | inr p ↦ let parts' = rw p at parts in rw p (omega (arith, parts'))
    ]

-- A key of one server is no key of another.
other_server :
    (server server' user : Bytes)
    → Lacks 58 server
    → Lacks 58 server'
    → has_prefix (slot_key server' user) (prefix_of server) ≡ true
    → server' ≡ server
other_server server server' user h h' p =
    let (rest, e) = eq_of_has_prefix (slot_key server' user) (prefix_of server) p in
    (split_unique 58 server' server user rest h' h (e ∙ append_assoc server (58 ∷ []) rest)).0

pub record IsValid (m : Table ℕ) : Type 0 where
  pub distinct : Distinct m
  pub users : (key : Bytes) → count_of key m ≤ max_admin_log_streams_per_user
  pub servers : (server : Bytes) → Lacks 58 server → total server m ≤ max_agent_log_streams

pub count-assign :
    (key k : Bytes) (n : ℕ) (m : Table ℕ)
    → count_of key (assign k n m) ≡ (if text_eq k key then n else count_of key m)
count-assign key k n m = elim (Bool-cases (text_eq k key)) [
  | inl e ↦ rw (lookup-assign k key n m, e) refl
  | inr e ↦ rw (lookup-assign k key n m, e) refl
]

pub count-delete :
    (key k : Bytes) (m : Table ℕ)
    → count_of key (delete k m) ≡ (if text_eq k key then 0 else count_of key m)
count-delete key k m = elim (Bool-cases (text_eq k key)) [
  | inl e ↦ rw (lookup-delete k key m, e) refl
  | inr e ↦ rw (lookup-delete k key m, e) refl
]

assign-IsValid :
    (server user : Bytes) (n : ℕ) (m : Table ℕ)
    → Lacks 58 server
    → n ≤ max_admin_log_streams_per_user
    → (total server m + n ≤ max_agent_log_streams + count_of (slot_key server user) m)
    → IsValid m
    → IsValid (assign (slot_key server user) n m)
assign-IsValid server user n m h small fits v = record {
  distinct = assign-Distinct (slot_key server user) n m v.distinct;
  users =
      λ key. rw (count-assign key (slot_key server user) n m) (ground (arith, v.users key, small));
  servers = λ s lacks.
      let sum = total-assign s (slot_key server user) n m v.distinct in
      let before = v.servers s lacks in
      elim (Bool-cases (has_prefix (slot_key server user) (prefix_of s))) [
        | inl p ↦
            let same = other_server s server user lacks h p in
            let sum' = rw p at sum in
            let tot : total server m ≡ total s m = ap (λ x. total x m) same in
            omega (arith, sum', tot, fits)
        | inr p ↦ let sum' = rw p at sum in omega (arith, sum', before)
      ];
}

delete-IsValid : (k : Bytes) (m : Table ℕ) → IsValid m → IsValid (delete k m)
delete-IsValid k m v = record {
  distinct = delete-Distinct k m v.distinct;
  users = λ key. rw (count-delete key k m) (ground (arith, v.users key));
  servers = λ s lacks. omega (arith, total-delete s k m v.distinct, v.servers s lacks);
}

-- A slot that is given leaves room for the limits.
pub acquire-IsValid :
    (server user role : Bytes) (m : Table ℕ)
    → Lacks 58 server
    → IsValid m
    → IsValid (try_acquire_log_tail_slot server user role m).0
unfolding try_acquire_log_tail_slot
acquire-IsValid server user role m h v =
    let key = slot_key server user in
    let most = if is_admin role then max_agent_log_streams else 40 in
    let limit = if is_admin role then max_admin_log_streams_per_user else 5 in
    let counted = total_for_server_lem server user m in
    let most_le : most ≤ 50 = ground arith in
    let limit_le : limit ≤ 10 = ground arith in
    elim (Bool-cases (leb most (total server m))) [
      | inl full ↦ rw (counted, full) v
      | inr room ↦ elim (Bool-cases (leb limit (count_of key m))) [
        | inl many ↦ rw (counted, room, many) v
        | inr few ↦
            let below : suc (total server m) ≤ most = ground arith in
            let under : suc (count_of key m) ≤ limit = ground arith in
            rw (counted, room, few)
              (assign-IsValid server user (suc (count_of key m)) m h (omega arith) (omega arith) v)
      ]
    ]

pub release-IsValid :
    (server user : Bytes) (m : Table ℕ)
    → Lacks 58 server
    → IsValid m
    → IsValid (release_log_tail_slot server user m)
unfolding release_log_tail_slot
release-IsValid server user m h v =
    let key = slot_key server user in
    elim (Bool-cases (leb (count_of key m) 1)) [
      | inl last ↦ rw last (delete-IsValid key m v)
      | inr more ↦ rw more (
          assign-IsValid server user (count_of key m - 1) m h (omega (arith, v.users key))
            (omega (arith, v.servers server h)) v)
    ]

pub data Op : Type 0 where
  opens : Bytes → Bytes → Bytes → Op
  closes : Bytes → Bytes → Op

abbrev pub server_of : Op → Bytes
server_of (opens server user role) = server
server_of (closes server user) = server

unfoldable pub step : Table ℕ → Op → Table ℕ
step m (opens server user role) = (try_acquire_log_tail_slot server user role m).0
step m (closes server user) = release_log_tail_slot server user m

unfoldable pub run : Table ℕ → List Op → Table ℕ
run m [] = m
run m (o ∷ os) = run (step m o) os
