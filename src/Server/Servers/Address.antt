-- ===== src/Server/Servers/Address.antt =====
-- The addresses of the hub that an install command names.
use aerodocs.Paths.{slash}
use aerodocs.Server.Gate.{HttpRequest}
use aerodocs.Server.Csrf.{Net, request_scheme}
use aerodocs.Base.{
  ℕ, Bool, false, not, ◌&&◌, ◌||◌, Option, none, some, [], ◌∷◌, ◌++◌, leb, ◌==◌, if◌then◌else◌,
  Result, returns, raises, any, Bytes, text, text_eq,
}

-- `get_config` is none on an error; `env_public_base_url` is empty if it is not set.
pub record Settings : Type 0 where
  pub net : Net
  pub is_dev : Bool
  pub grpc_addr : Bytes
  pub grpc_external_addr : Bytes
  pub env_public_base_url : Bytes
  pub get_config : Bytes → Option Bytes
  -- `strings.TrimSpace`.
  pub trim_space : Bytes → Bytes

unfoldable pub host_from_addr : Net → Bytes → Bytes
host_from_addr net addr = elim (net.split_host_port addr) [ none ↦ addr | some (h, port) ↦ h ]

abbrev pub in_range : ℕ → ℕ → ℕ → Bool
in_range lo hi c = leb lo c && leb c hi

-- A character of `hostPattern`.
unfoldable pub is_host_char : ℕ → Bool
is_host_char c =
    in_range b'a' b'z' c
    || (in_range b'A' b'Z' c || (in_range b'0' b'9' c || any (λ d. c == d) (text "._:-")))

unfoldable pub host_pattern : Bytes → Bool
unfolding is_host_char
host_pattern host = not (text_eq host []) && not (any (λ c. not (is_host_char c)) host)

-- `strings.TrimRight(raw, "/")`.
unfoldable pub trim_right_slashes : Bytes → Bytes
trim_right_slashes [] = []
trim_right_slashes (c ∷ raw) =
    let rest = trim_right_slashes raw in if text_eq rest [] && (c == slash) then [] else c ∷ rest

unfoldable pub resolve_grpc_target : Settings → Bytes → Bytes
unfolding host_from_addr
resolve_grpc_target s host =
    let flag =
      if text_eq s.grpc_external_addr []
      then host_from_addr s.net host ++ text ":9443"
      else s.grpc_external_addr in
    if s.is_dev then s.grpc_addr else elim (s.get_config (text "grpc_external_addr")) [
      | none ↦ flag
      | some db_addr ↦ if text_eq db_addr [] then flag else db_addr
    ]

unfoldable pub validate_public_base_url : Net → Bytes → Result Bytes
unfolding trim_right_slashes
validate_public_base_url net raw = elim (net.parse_url raw) [
  | none ↦ raises (text "invalid public base url")
  | some (scheme, host) ↦
      if text_eq host []
        || (not (text_eq scheme (text "http")) && not (text_eq scheme (text "https")))
      then raises (text "invalid public base url")
      else returns (trim_right_slashes raw)
]

-- Without a host in the request.
unfoldable pub public_base_url_of_target : Settings → Result Bytes
unfolding resolve_grpc_target host_from_addr host_pattern
public_base_url_of_target s =
    let target = resolve_grpc_target s [] in
    if text_eq target []
    then raises (text "public hub address is not configured")
    else if not (host_pattern (host_from_addr s.net target))
    then raises (text "invalid public hub address")
    else returns (text "https://" ++ host_from_addr s.net target)

unfoldable pub public_base_url_of_request : Settings → HttpRequest → Result Bytes
unfolding public_base_url_of_target host_pattern
public_base_url_of_request s r =
    if not (text_eq r.host [])
    then (if not (host_pattern r.host)
        then raises (text "invalid public hub address")
        else returns (request_scheme s.net s.is_dev r ++ text "://" ++ r.host))
    else if s.is_dev
    then returns (text "http://localhost:8080")
    else public_base_url_of_target s

abbrev pub stored_base_url : Settings → Bytes
stored_base_url s = elim (s.get_config (text "public_base_url")) [
  | none ↦ []
  | some stored ↦ s.trim_space stored
]

unfoldable pub resolve_public_base_url : Settings → HttpRequest → Result Bytes
unfolding public_base_url_of_request
resolve_public_base_url s r =
    if not (text_eq s.env_public_base_url [])
    then validate_public_base_url s.net s.env_public_base_url
    else if not (text_eq (stored_base_url s) [])
    then validate_public_base_url s.net (stored_base_url s)
    else public_base_url_of_request s r

unfoldable pub is_valid_grpc_addr : Net → Bytes → Bool
unfolding host_pattern
is_valid_grpc_addr net addr = if text_eq addr [] then false else elim (net.split_host_port addr) [
  | none ↦ false
  | some (host, port) ↦ if text_eq host [] || text_eq port [] then false else host_pattern host
]
