-- ===== src/Server/Csrf/Tests.antt =====
-- A request that adds a server.
use aerodocs.Server.Gate.{HttpRequest, passes, read_access_token, is_using_bearer_auth}
use aerodocs.Server.Csrf.{
  Net, is_mutation_method, is_csrf_exempt_path, csrf_tokens_match, request_scheme,
  normalized_origin_authority, is_valid_origin, csrf_middleware,
}
use aerodocs.Server.Csrf.Laws.{SameOrigin, csrf_middleware-Protects}
use aerodocs.Base.{
  ◌≡◌, refl, ◌≢◌, ◌⊎◌, true, false, none, some, [], ◌∷◌, ◌++◌, text, text_eq, has_prefix,
}

abbrev net : Net
net = record {
  split_host_port = λ h. none;
  join_host_port = λ h p. h ++ 58 ∷ p;
  is_loopback_ip = λ h. false;
  parse_url = λ u. some (text "https", text "hub");
}

abbrev request : HttpRequest
request = record {
  method = text "POST";
  path = text "/api/servers";
  host = text "hub";
  tls = true;
  remote_addr = text "1.2.3.4:5";
  access_cookie = some (text "t");
  csrf_cookie = some (text "c");
  authorization = [];
  csrf_header = text "c";
  origin = text "https://hub";
  request_id = [];
}

request_passes : csrf_middleware net false request ≡ passes request
unfolding csrf_middleware is_mutation_method is_using_bearer_auth is_csrf_exempt_path
    csrf_tokens_match is_valid_origin request_scheme normalized_origin_authority read_access_token
    text_eq has_prefix
request_passes = refl

csrf_middleware-Protects_example :
    ((request.csrf_header ≢ []) × (request.csrf_cookie ≡ some request.csrf_header))
    × ((request.origin ≡ []) ⊎ SameOrigin net false request)
unfolding is_mutation_method is_using_bearer_auth is_csrf_exempt_path read_access_token text_eq
    has_prefix
csrf_middleware-Protects_example =
    csrf_middleware-Protects net false request request_passes refl refl refl (λ e. cc)
