-- ===== src/Server/Csrf/Laws.antt =====
-- What a request from a browser must carry to change something.
use aerodocs.Server.Gate.{HttpRequest, passes, read_access_token, is_using_bearer_auth}
use aerodocs.Server.Csrf.{
  Net, is_mutation_method, is_csrf_exempt_path, csrf_tokens_match, request_scheme,
  normalized_origin_authority, is_valid_origin, csrf_middleware,
}
use aerodocs.Base.{
  ◌≡◌, ap, ◌∙◌, ◌≢◌, ◌⊎◌, inl, inr, Bool, true, false, some, [], arith, Bool-cases, Option-cases,
  Bytes, text_eq, text_eq_refl, eq_of_text_eq, text_eq_iff,
}

-- An origin is that of the request: the same scheme, and the same host and port.
pub record SameOrigin (net : Net) (is_dev : Bool) (r : HttpRequest) : Type 0 where
  pub scheme : Bytes
  pub host : Bytes
  pub parsed : net.parse_url r.origin ≡ some (scheme, host)
  pub same_scheme : scheme ≡ request_scheme net is_dev r
  pub same_authority :
      normalized_origin_authority net is_dev host scheme
      ≡ normalized_origin_authority net is_dev r.host (request_scheme net is_dev r)

valid-SameOrigin :
    (net : Net) (is_dev : Bool) (r : HttpRequest)
    → is_valid_origin net is_dev r r.origin (request_scheme net is_dev r) ≡ true
    → SameOrigin net is_dev r
unfolding is_valid_origin
valid-SameOrigin net is_dev r valid = elim (Option-cases (net.parse_url r.origin)) [
  | inl gone ↦ absurd (ground (arith, gone, valid))
  | inr ((scheme, host), parsed) ↦
      let wanted = request_scheme net is_dev r in
      record {
        scheme = scheme;
        host = host;
        parsed = parsed;
        same_scheme = ground (arith, parsed, valid, text_eq_iff scheme wanted);
        same_authority = ground (
          arith,
          parsed,
          valid,
          text_eq_iff (normalized_origin_authority net is_dev host scheme)
              (normalized_origin_authority net is_dev r.host wanted),
        );
      }
]

matched :
    (r : HttpRequest)
    → csrf_tokens_match r ≡ true
    → (r.csrf_header ≢ []) × (r.csrf_cookie ≡ some r.csrf_header)
unfolding csrf_tokens_match
matched r same = elim (Option-cases r.csrf_cookie) [
  | inl gone ↦ absurd (ground (arith, gone, same, text_eq_refl []))
  | inr (v, held) ↦
      let eq : v ≡ r.csrf_header = ground (arith, held, same, text_eq_iff v r.csrf_header) in
      let full : r.csrf_header ≢ [] = ground (arith, held, same, text_eq_iff r.csrf_header []) in
      (full, held ∙ ap some eq)
]

-- A request with a session's cookie that changes something, is not authorized by a bearer header and
-- is not for one of the five exempt paths passes only if it carries a CSRF cookie and the same value,
-- not empty, in its header, and its origin, if it names one, is the request's own.
pub csrf_middleware-Protects :
    (net : Net) (is_dev : Bool) (r : HttpRequest)
    → csrf_middleware net is_dev r ≡ passes r
    → is_mutation_method r.method ≡ true
    → is_using_bearer_auth r ≡ false
    → is_csrf_exempt_path r.path ≡ false
    → read_access_token r ≢ []
    → ((r.csrf_header ≢ []) × (r.csrf_cookie ≡ some r.csrf_header))
      × ((r.origin ≡ []) ⊎ SameOrigin net is_dev r)
unfolding csrf_middleware
csrf_middleware-Protects net is_dev r passed mutates bearer exempt session =
    let given : text_eq (read_access_token r) [] ≡ false =
      ground (arith, text_eq_iff (read_access_token r) []) in
    let tokens : csrf_tokens_match r ≡ true = elim (Bool-cases (csrf_tokens_match r)) [
      | inl yes_ ↦ yes_
      | inr no_ ↦ absurd (ground (arith, passed, mutates, bearer, exempt, given, no_))
    ] in
    (
      matched r tokens,
      elim (Bool-cases (text_eq r.origin [])) [
        | inl unnamed ↦ inl (eq_of_text_eq r.origin [] unnamed)
        | inr named ↦
            elim (Bool-cases
              (is_valid_origin net is_dev r r.origin (request_scheme net is_dev r))) [
                | inl valid ↦ inr (valid-SameOrigin net is_dev r valid)
                | inr bad ↦ absurd (ground (arith, passed, mutates, bearer, exempt, named, bad))
              ]
      ],
    )
