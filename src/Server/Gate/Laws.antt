-- ===== src/Server/Gate/Laws.antt =====
-- A request that passes comes from somebody.
use aerodocs.Server.Gate.{
  HttpRequest, Claims, User, ApiToken, Backend, Identity, passes, access, api_token,
  read_access_token, looks_like_api_token, is_revoked, is_current, identify_claims,
  identify_api_token, authenticate_request_token, is_allowed_token_type, auth_middleware,
}
use aerodocs.Base.{
  ◌≡◌, refl, sym, ◌⊎◌, inl, inr, true, false, Option, none, some, arith, Bool-cases, Option-cases,
  Bytes, text_eq_iff,
}

-- A valid token that was not revoked, of the current generation of its user if it is for access.
pub record FromClaims (b : Backend) (token : Bytes) (i : Identity) : Type 0 where
  pub claims : Claims
  pub signed : b.validate_token token ≡ some claims
  pub live : is_revoked b.is_blacklisted claims.id ≡ false
  pub current :
      claims.token_type ≡ access
      → (user : User) × (b.get_user_by_id claims.subject ≡ some user)
        × (claims.token_generation ≡ user.token_generation)
  pub identity :
      i ≡ record { user_id = claims.subject; role = claims.role; token_type = claims.token_type }

-- An active API token of a user, whose role is the user's own.
pub record FromApiToken (b : Backend) (token : Bytes) (i : Identity) : Type 0 where
  pub stored : ApiToken
  pub user : User
  pub prefixed : looks_like_api_token token ≡ true
  pub active : b.get_active_api_token_by_hash (b.hash_api_token token) ≡ some stored
  pub owner : b.get_user_by_id stored.user_id ≡ some user
  pub identity : i ≡ record { user_id = user.id; role = user.role; token_type = api_token }

claims_current :
    (b : Backend) (claims : Claims) (o : Option User)
    → o ≡ b.get_user_by_id claims.subject
    → is_current o claims ≡ true
    → (user : User) × (b.get_user_by_id claims.subject ≡ some user)
      × (claims.token_generation ≡ user.token_generation)
claims_current b claims none e h = cc
claims_current b claims (some user) e h = (user, sym e, ground arith)

from_claims :
    (b : Backend) (token : Bytes) (claims : Claims) (i : Identity)
    → b.validate_token token ≡ some claims
    → identify_claims b claims ≡ some i
    → FromClaims b token i
unfolding identify_claims
from_claims b token claims i signed found = record {
  claims = claims;
  signed = signed;
  live = ground (arith, found);
  current = λ is_access.
      claims_current b claims (b.get_user_by_id claims.subject) refl
        (ground (arith, found, is_access, text_eq_iff claims.token_type access));
  identity = ground (arith, found);
}

from_api_token :
    (b : Backend) (token used : Bytes) (i : Identity)
    → looks_like_api_token token ≡ true
    → identify_api_token b token ≡ some (i, used)
    → FromApiToken b token i
unfolding identify_api_token
from_api_token b token used i prefixed found =
    elim (Option-cases (b.get_active_api_token_by_hash (b.hash_api_token token))) [
      | inl gone ↦ absurd (ground (arith, gone, found))
      | inr (stored, active) ↦ elim (Option-cases (b.get_user_by_id stored.user_id)) [
        | inl gone ↦ absurd (ground (arith, active, gone, found))
        | inr (user, owner) ↦ record {
          stored = stored;
          user = user;
          prefixed = prefixed;
          active = active;
          owner = owner;
          identity = ground (arith, active, owner, found);
        }
      ]
    ]

authenticated :
    (b : Backend) (token : Bytes) (i : Identity)
    → (authenticate_request_token b token).0 ≡ some i
    → FromClaims b token i ⊎ FromApiToken b token i
unfolding authenticate_request_token
authenticated b token i found = elim (Option-cases (b.validate_token token)) [
  | inr (claims, signed) ↦ inl (from_claims b token claims i signed (ground (arith, signed, found)))
  | inl unsigned ↦ elim (Bool-cases (looks_like_api_token token)) [
    | inr no_ ↦ absurd (ground (arith, unsigned, no_, found))
    | inl yes_ ↦ elim (Option-cases (identify_api_token b token)) [
      | inl gone ↦ absurd (ground (arith, unsigned, yes_, gone, found))
      | inr ((j, used), at) ↦
          let same : j ≡ i = ground (arith, unsigned, yes_, at, found) in
          inr (rw (← same) (from_api_token b token used j yes_ at))
    ]
  ]
]

-- A request that passes the check of its token carries a signed token that was not revoked and, if it
-- is an access token, is of its user's current generation, or an active API token of a user, whose
-- role the request then has; and its type is the required one, or that of an API token where access
-- is required.
pub auth_middleware-IsSound :
    (b : Backend) (required : Bytes) (r : HttpRequest) (i : Identity)
    → auth_middleware b required r ≡ passes i
    → (FromClaims b (read_access_token r) i ⊎ FromApiToken b (read_access_token r) i)
      × ((i.token_type ≡ required) ⊎ ((required ≡ access) × (i.token_type ≡ api_token)))
unfolding auth_middleware is_allowed_token_type
auth_middleware-IsSound b required r i ok =
    elim (Option-cases (authenticate_request_token b (read_access_token r)).0) [
      | inl gone ↦ absurd (ground (arith, gone, ok))
      | inr (j, found) ↦
          let same : j ≡ i = ground (arith, found, ok) in
          let kind : (j.token_type ≡ required)
              ⊎ ((required ≡ access) × (j.token_type ≡ api_token)) =
            ground (
              arith,
              found,
              ok,
              text_eq_iff required access,
              text_eq_iff j.token_type api_token,
              text_eq_iff required j.token_type,
            ) in
          rw (← same) (authenticated b (read_access_token r) j found, kind)
    ]
