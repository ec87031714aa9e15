-- ===== src/Server/Gate/Tests.antt =====
-- A request with an access token.
use aerodocs.Server.Gate.{
  HttpRequest, Claims, User, Backend, Identity, passes, access, api_token, read_access_token,
  auth_middleware, authenticate_request_token, identify_claims, is_allowed_token_type,
}
use aerodocs.Server.Gate.Laws.{FromClaims, FromApiToken, auth_middleware-IsSound}
use aerodocs.Base.{◌≡◌, refl, ◌⊎◌, true, false, none, some, [], text, text_eq}

abbrev claims : Claims
claims = record {
  id = text "j";
  subject = text "u";
  role = text "viewer";
  token_type = text "access";
  token_generation = 2;
}

abbrev user : User
user = record {
  username = text "ann";
  ldap_username = [];
  id = text "u";
  role = text "viewer";
  auth_provider = text "local";
  terminal_access = false;
  token_generation = 2;
}

abbrev backend : Backend
backend = record {
  validate_token = λ t. some claims;
  is_blacklisted = some (λ j. false);
  get_user_by_id = λ u. some user;
  hash_api_token = λ t. t;
  get_active_api_token_by_hash = λ h. none;
}

abbrev request : HttpRequest
request = record {
  method = text "GET";
  path = text "/api/servers";
  host = text "hub";
  tls = true;
  remote_addr = text "1.2.3.4:5";
  access_cookie = some (text "t");
  csrf_cookie = none;
  authorization = [];
  csrf_header = [];
  origin = [];
  request_id = [];
}

abbrev identity : Identity
identity = record { user_id = text "u"; role = text "viewer"; token_type = text "access" }

request_passes : auth_middleware backend access request ≡ passes identity
unfolding auth_middleware authenticate_request_token identify_claims is_allowed_token_type
    read_access_token text_eq
request_passes = refl

auth_middleware-IsSound_example :
    (FromClaims backend (read_access_token request) identity
      ⊎ FromApiToken backend (read_access_token request) identity)
    × ((identity.token_type ≡ access) ⊎ ((access ≡ access) × (identity.token_type ≡ api_token)))
auth_middleware-IsSound_example =
    auth_middleware-IsSound backend access request identity request_passes
