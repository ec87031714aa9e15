-- ===== src/Server/Login/Rotation.antt =====
-- A refresh token is used up by its refresh.
use aerodocs.Server.Gate.{Claims}
use aerodocs.Server.Login.{
  Account, Accounts, Auth, fails, token_pair, find_user, has_id, get_user_by_id, claims_of,
  increment_token_generation, begin_refresh, finish_refresh, incremented, handle_refresh,
}
use mathlib.Core.Path.{subst}
use aerodocs.Base.{
  ◌+◌, ◌≡◌, refl, sym, ap, ◌∙◌, ◌≢◌, ◌⊎◌, inl, inr, true, false, some, List, [], ◌∷◌, arith, ◌==◌,
  Bool-cases, Option-cases, returns, Bytes, text, eq_of_text_eq,
}

-- The user after the increment.
incremented_user :
    (id : Bytes) (users : List Account) (user : Account)
    → get_user_by_id id users ≡ some user
    → get_user_by_id id (increment_token_generation id users)
      ≡ some (record user { token_generation = user.token_generation + 1 })
unfolding get_user_by_id find_user increment_token_generation
incremented_user id [] user e = absurd (cc)
incremented_user id (first ∷ users) user e = elim (Bool-cases (has_id id first)) [
  | inl here ↦
      let same : first ≡ user = ground (arith, here, e) in
      let here' : has_id id user ≡ true = rw (sym same) here in rw (same, here', here') refl
  | inr other ↦ rw (other, other) (incremented_user id users user (ground (arith, other, e)))
]

found_id :
    (id : Bytes) (users : List Account) (user : Account)
    → get_user_by_id id users ≡ some user
    → user.id ≡ id
unfolding get_user_by_id find_user
found_id id [] user e = absurd (cc)
found_id id (first ∷ users) user e = elim (Bool-cases (has_id id first)) [
  | inl here ↦
      let same : first ≡ user = ground (arith, here, e) in
      rw (sym same) (eq_of_text_eq first.id id here)
  | inr other ↦ found_id id users user (ground (arith, other, e))
]

-- A refresh that gives new tokens.
pub record Refreshes (auth : Auth) (token : Bytes) (accounts : Accounts) : Type 0 where
  pub claims : Claims
  pub token_valid : claims_of auth (text "refresh") token ≡ some claims
  pub user : Account
  pub user_found : get_user_by_id claims.subject accounts.users ≡ some user
  pub current : claims.token_generation ≡ user.token_generation

Refreshes-value :
    (auth : Auth) (token : Bytes) (accounts : Accounts) (r : Refreshes auth token accounts)
    → begin_refresh auth token accounts ≡ returns r.user
unfolding begin_refresh
Refreshes-value auth token accounts r =
    let same : (r.claims.token_generation == r.user.token_generation) ≡ true =
      ground (arith, r.current) in
    rw (r.token_valid, r.user_found, same, begin_refresh) refl

refreshed :
    (auth : Auth) (token : Bytes) (accounts : Accounts)
    → ((error : Bytes) × (handle_refresh auth token accounts ≡ (accounts, fails 401 error)))
      ⊎ Refreshes auth token accounts
unfolding handle_refresh begin_refresh
refreshed auth token accounts = elim (Option-cases (claims_of auth (text "refresh") token)) [
  | inl bad ↦
      inl (text "invalid or expired refresh token", rw (bad, handle_refresh, begin_refresh) refl)
  | inr (claims, valid) ↦ elim (Option-cases (get_user_by_id claims.subject accounts.users)) [
    | inl gone ↦
        inl (text "user no longer exists", rw (valid, gone, handle_refresh, begin_refresh) refl)
    | inr (user, found) ↦ elim (Bool-cases (claims.token_generation == user.token_generation)) [
      | inr other ↦ inl (
        text "token has been revoked",
        rw (valid, found, other, handle_refresh, begin_refresh) refl,
      )
      | inl same ↦ inr (record {
        claims = claims;
        token_valid = valid;
        user = user;
        user_found = found;
        current = ground (arith, same);
      })
    ]
  ]
]

-- A token whose generation is not the user's.
old_refused :
    (auth : Auth) (old : Bytes) (accounts : Accounts) (claims : Claims) (user : Account)
    → claims_of auth (text "refresh") old ≡ some claims
    → get_user_by_id claims.subject accounts.users ≡ some user
    → claims.token_generation ≢ user.token_generation
    → handle_refresh auth old accounts ≡ (accounts, fails 401 (text "token has been revoked"))
unfolding handle_refresh begin_refresh
old_refused auth old accounts claims user valid found ne =
    let other : (claims.token_generation == user.token_generation) ≡ false = ground (arith, ne) in
    rw (valid, found, other, handle_refresh, begin_refresh) refl

-- A refresh whose token is accepted.
accepted :
    (auth : Auth) (token : Bytes) (accounts : Accounts) (r : Refreshes auth token accounts)
    → handle_refresh auth token accounts ≡ (
      incremented r.user.id accounts,
      token_pair r.user.id r.user.role (r.user.token_generation + 1),
    )
unfolding handle_refresh finish_refresh
accepted auth token accounts r =
    let id = found_id r.claims.subject accounts.users r.user r.user_found in
    let found : get_user_by_id r.user.id accounts.users ≡ some r.user =
      subst (λ k. get_user_by_id k accounts.users ≡ some r.user) (sym id) r.user_found in
    let after = incremented_user r.user.id accounts.users r.user found in
    rw (Refreshes-value auth token accounts r, after, handle_refresh, finish_refresh) refl

-- A refresh is refused and changes nothing, or its token is a refresh token of the present generation of a
-- user. Then the user gets tokens of the next generation, and after that neither the token nor any other of
-- the old generation of that user is accepted for a refresh.
pub handle_refresh-Rotates :
    (auth : Auth) (token : Bytes) (accounts : Accounts)
    → ((error : Bytes) × (handle_refresh auth token accounts ≡ (accounts, fails 401 error)))
      ⊎ ((r : Refreshes auth token accounts) × (((handle_refresh auth token accounts).1
              ≡ token_pair r.user.id r.user.role (r.user.token_generation + 1))
            × ((old : Bytes) (claims : Claims)
                → claims_of auth (text "refresh") old ≡ some claims
                → claims.subject ≡ r.claims.subject
                → claims.token_generation ≡ r.user.token_generation
                → handle_refresh auth old (handle_refresh auth token accounts).0 ≡ (
                  (handle_refresh auth token accounts).0,
                  fails 401 (text "token has been revoked"),
                ))))
handle_refresh-Rotates auth token accounts = elim (refreshed auth token accounts) [
  | inl refused ↦ inl refused
  | inr r ↦
      let value = accepted auth token accounts r in
      let id = found_id r.claims.subject accounts.users r.user r.user_found in
      inr (
        r,
        (
          ap (λ o. o.1) value,
          λ old claims valid subject generation.
              let found : get_user_by_id claims.subject accounts.users ≡ some r.user =
                rw subject r.user_found in
              let named : r.user.id ≡ claims.subject = id ∙ sym subject in
              let after : get_user_by_id claims.subject (incremented r.user.id accounts).users
                  ≡ some (record r.user { token_generation = r.user.token_generation + 1 }) =
                subst
                  (λ k.
                    get_user_by_id claims.subject (increment_token_generation k accounts.users)
                    ≡ some (record r.user { token_generation = r.user.token_generation + 1 }))
                  (sym named) (incremented_user claims.subject accounts.users r.user found) in
              let stale =
                old_refused auth old (incremented r.user.id accounts) claims _ valid after
                  (λ e. omega (arith, e, generation)) in
              subst
                (λ o. handle_refresh auth old o ≡ (o, fails 401 (text "token has been revoked")))
                (sym (ap (λ o. o.0) value)) stale,
        ),
      )
]
