-- ===== src/Server/Csrf.antt =====
-- hub/internal/server/csrf.go: the double-submit cookie. What Go's packages net and net/url return is a
-- parameter; none is their error.
pub mod Laws
mod Tests
use aerodocs.Server.Gate.{
  HttpRequest, Outcome, rejects, passes, or_empty, read_access_token, is_using_bearer_auth,
}
use aerodocs.Base.{
  Bool, true, false, not, ◌&&◌, ◌||◌, Option, none, some, List, [], ◌∷◌, if◌then◌else◌, any, Bytes,
  text, text_eq,
}

pub record Net : Type 0 where
  -- `net.SplitHostPort` and `net.JoinHostPort`.
  pub split_host_port : Bytes → Option (Bytes × Bytes)
  pub join_host_port : Bytes → Bytes → Bytes
  -- `net.ParseIP` gives an address, and it is a loopback address.
  pub is_loopback_ip : Bytes → Bool
  -- `url.Parse`: the scheme and the host.
  pub parse_url : Bytes → Option (Bytes × Bytes)

abbrev pub csrf_exempt_paths : List Bytes
csrf_exempt_paths =
    text "/api/auth/login"
    ∷ text "/api/auth/register"
    ∷ text "/api/auth/refresh"
    ∷ text "/api/auth/logout"
    ∷ text "/api/auth/login/totp"
    ∷ []

unfoldable pub is_mutation_method : Bytes → Bool
is_mutation_method method =
    not (text_eq method (text "GET"))
    && (not (text_eq method (text "HEAD")) && not (text_eq method (text "OPTIONS")))

unfoldable pub is_csrf_exempt_path : Bytes → Bool
is_csrf_exempt_path path = any (text_eq path) csrf_exempt_paths

unfoldable pub csrf_tokens_match : HttpRequest → Bool
csrf_tokens_match r =
    not (text_eq (or_empty r.csrf_cookie) [])
    && (not (text_eq r.csrf_header []) && text_eq (or_empty r.csrf_cookie) r.csrf_header)

module _ (net : Net) (is_dev : Bool) where
  abbrev pub host_of : Bytes → Bytes
  host_of hostport = elim (net.split_host_port hostport) [
    | none ↦ hostport
    | some (host, port) ↦ host
  ]

  abbrev pub port_of : Bytes → Bytes
  port_of hostport = elim (net.split_host_port hostport) [ none ↦ [] | some (host, port) ↦ port ]

  unfoldable pub is_loopback_host : Bytes → Bool
  is_loopback_host hostport =
      if text_eq (host_of hostport) (text "localhost")
      then true
      else net.is_loopback_ip (host_of hostport)

  unfoldable pub request_scheme : HttpRequest → Bytes
  unfolding is_loopback_host
  request_scheme r =
      if r.tls
      then text "https"
      else if is_loopback_host r.host
      then text "http"
      else if not is_dev
      then text "https"
      else text "http"

  unfoldable pub normalized_origin_authority : Bytes → Bytes → Bytes
  normalized_origin_authority hostport scheme =
      let port =
        if text_eq (port_of hostport) []
        then (if text_eq scheme (text "https") then text "443" else text "80")
        else port_of hostport in
      net.join_host_port (host_of hostport) port

  unfoldable pub is_valid_origin : HttpRequest → Bytes → Bytes → Bool
  unfolding normalized_origin_authority
  is_valid_origin r origin scheme = elim (net.parse_url origin) [
    | none ↦ false
    | some (u_scheme, u_host) ↦
        if not (text_eq u_scheme scheme)
        then false
        else text_eq (normalized_origin_authority u_host u_scheme)
            (normalized_origin_authority r.host scheme)
  ]

  unfoldable pub csrf_middleware : HttpRequest → Outcome HttpRequest
  unfolding is_valid_origin request_scheme
  csrf_middleware r =
      if not (is_mutation_method r.method) || (is_using_bearer_auth r || is_csrf_exempt_path r.path)
      then passes r
      else if not (text_eq r.origin []) && not (is_valid_origin r r.origin (request_scheme r))
      then rejects 403 (text "origin not allowed")
      else if text_eq (or_empty r.csrf_cookie) [] && text_eq (read_access_token r) []
      then passes r
      else if not (csrf_tokens_match r)
      then rejects 403 (text "CSRF validation failed")
      else passes r
