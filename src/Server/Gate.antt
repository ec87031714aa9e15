-- ===== src/Server/Gate.antt =====
-- hub/internal/server/middleware.go: who a request comes from, and which requests pass. The store, the
-- blacklist, `auth.ValidateToken` and the hash of API tokens are a parameter; none is their error.
pub mod Laws
mod Tests
use aerodocs.Base.{
  ℕ, Bool, true, false, not, ◌&&◌, ◌||◌, Option, none, some, [], ◌==◌, if◌then◌else◌, ◌>>=◌, length,
  drop, Bytes, text, text_eq, has_prefix,
}

pub record HttpRequest : Type 0 where
  pub method : Bytes
  pub path : Bytes
  pub host : Bytes
  pub tls : Bool
  pub remote_addr : Bytes
  -- The cookies; none is a missing cookie.
  pub access_cookie : Option Bytes
  pub csrf_cookie : Option Bytes
  -- The headers; a missing header is empty.
  pub authorization : Bytes
  pub csrf_header : Bytes
  pub origin : Bytes
  pub request_id : Bytes

pub record Claims : Type 0 where
  pub id : Bytes
  pub subject : Bytes
  pub role : Bytes
  pub token_type : Bytes
  pub token_generation : ℕ

pub record User : Type 0 where
  pub id : Bytes
  pub username : Bytes
  pub ldap_username : Bytes
  pub role : Bytes
  pub auth_provider : Bytes
  pub terminal_access : Bool
  pub token_generation : ℕ

pub record ApiToken : Type 0 where
  pub id : Bytes
  pub user_id : Bytes

pub record Backend : Type 0 where
  pub validate_token : Bytes → Option Claims
  -- `s.tokenBlacklist.IsBlacklisted`; none is a server without a blacklist.
  pub is_blacklisted : Option (Bytes → Bool)
  pub get_user_by_id : Bytes → Option User
  pub hash_api_token : Bytes → Bytes
  pub get_active_api_token_by_hash : Bytes → Option ApiToken

-- What the context of the request holds.
pub record Identity : Type 0 where
  pub user_id : Bytes
  pub role : Bytes
  pub token_type : Bytes

-- A middleware answers with an error, or passes a value on to the next handler.
pub data Outcome {ℓ} (A : Type ℓ) : Type ℓ where
  rejects : ℕ → Bytes → Outcome A
  passes : A → Outcome A

abbrev pub access : Bytes
access = text "access"

abbrev pub api_token : Bytes
api_token = text "api_token"

abbrev pub bearer_prefix : Bytes
bearer_prefix = text "Bearer "

abbrev pub or_empty : Option Bytes → Bytes
or_empty none = []
or_empty (some v) = v

unfoldable pub is_using_bearer_auth : HttpRequest → Bool
is_using_bearer_auth r = has_prefix r.authorization bearer_prefix

unfoldable pub read_access_token : HttpRequest → Bytes
read_access_token r =
    if not (text_eq (or_empty r.access_cookie) [])
    then or_empty r.access_cookie
    else if has_prefix r.authorization bearer_prefix
    then drop (length bearer_prefix) r.authorization
    else []

unfoldable pub looks_like_api_token : Bytes → Bool
looks_like_api_token raw = has_prefix raw (text "adt_")

abbrev pub is_revoked : Option (Bytes → Bool) → Bytes → Bool
is_revoked none id = false
is_revoked (some blacklisted) id = not (text_eq id []) && blacklisted id

-- The generation of an access token is that of its user.
abbrev pub is_current : Option User → Claims → Bool
is_current none claims = false
is_current (some user) claims = claims.token_generation == user.token_generation

module _ (b : Backend) where
  unfoldable pub identify_claims : Claims → Option Identity
  identify_claims claims =
      if is_revoked b.is_blacklisted claims.id
      then none
      else if text_eq claims.token_type access
          && not (is_current (b.get_user_by_id claims.subject) claims)
      then none
      else some
          (record { user_id = claims.subject; role = claims.role; token_type = claims.token_type })

  -- The identity, and the API token whose last use is recorded.
  unfoldable pub identify_api_token : Bytes → Option (Identity × Bytes)
  identify_api_token token = do
    stored ← b.get_active_api_token_by_hash (b.hash_api_token token)
    user ← b.get_user_by_id stored.user_id
    some (record { user_id = user.id; role = user.role; token_type = api_token }, stored.id)

  unfoldable pub authenticate_request_token : Bytes → Option Identity × Option Bytes
  unfolding identify_claims identify_api_token
  authenticate_request_token token = elim (b.validate_token token) [
    | some claims ↦ (identify_claims claims, none)
    | none ↦
        if not (looks_like_api_token token) then (none, none) else elim (identify_api_token token) [
          | none ↦ (none, none)
          | some (identity, used) ↦ (some identity, some used)
        ]
  ]

  unfoldable pub is_allowed_token_type : Bytes → Bytes → Bool
  is_allowed_token_type required token_type =
      if text_eq required access && text_eq token_type api_token
      then true
      else text_eq required token_type

  unfoldable pub auth_middleware : Bytes → HttpRequest → Outcome Identity
  unfolding authenticate_request_token is_allowed_token_type
  auth_middleware required r =
      if text_eq (read_access_token r) []
      then rejects 401 (text "missing authorization token")
      else elim (authenticate_request_token (read_access_token r)).0 [
        | none ↦ rejects 401 (text "invalid token")
        | some identity ↦
            if not (is_allowed_token_type required identity.token_type)
            then rejects 403 (text "invalid token type for this endpoint")
            else passes identity
      ]

  unfoldable pub terminal_access_only : Identity → Outcome Identity
  terminal_access_only i = elim (b.get_user_by_id i.user_id) [
    | none ↦ rejects 403 (text "terminal access required")
    | some user ↦
        if text_eq user.role (text "admin")
          || (text_eq user.auth_provider (text "ldap") && user.terminal_access)
        then passes i
        else rejects 403 (text "terminal access required")
  ]

unfoldable pub interactive_only : Identity → Outcome Identity
interactive_only i =
    if not (text_eq i.token_type access)
    then rejects 403 (text "interactive login required")
    else passes i

unfoldable pub admin_only : Identity → Outcome Identity
admin_only i =
    if not (text_eq i.role (text "admin"))
    then rejects 403 (text "admin access required")
    else passes i

unfoldable pub audit_access_only : Identity → Outcome Identity
audit_access_only i =
    if not (text_eq i.role (text "admin")) && not (text_eq i.role (text "auditor"))
    then rejects 403 (text "audit access required")
    else passes i
