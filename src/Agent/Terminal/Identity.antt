-- ===== src/Agent/Terminal/Identity.antt =====
-- The user that a terminal runs as, and its environment. The user database of the system and the commands
-- `getent` and `id` are parameters, none on an error.
mod Numbers
mod Passwd
mod Database
pub mod Laws
use aerodocs.Paths.{push_head}
use aerodocs.Base.{
  ℕ, zero, suc, ◌+◌, ◌-◌, ◌*◌, ◌^◌, Bool, false, not, ◌&&◌, ◌||◌, Option, none, some, List, [], ◌∷◌,
  ◌++◌, ltb, leb, ◌==◌, if◌then◌else◌, Result, returns, raises, ◌>>=◌, length, any, Bytes, text,
  text_eq,
}

pub record OsUser : Type 0 where
  pub uid : Bytes
  pub gid : Bytes
  pub username : Bytes
  pub name : Bytes
  pub home_dir : Bytes

pub record System : Type 0 where
  pub lookup_os_user : Bytes → Option OsUser
  pub lookup_os_user_groups : OsUser → Option (List Bytes)
  pub getent_passwd : Bytes → Option Bytes
  pub id_groups : Bytes → Option Bytes
  -- `strings.TrimSpace` and `strings.Fields`.
  pub trim_space : Bytes → Bytes
  pub fields : Bytes → List Bytes

-- The parts of a text between a separator, at least one.
unfoldable pub split_at : ℕ → Bytes → List Bytes
split_at sep [] = [] ∷ []
split_at sep (c ∷ s) = let rest = split_at sep s in if c == sep then [] ∷ rest else push_head c rest

abbrev pub nth : ℕ → List Bytes → Bytes
nth n [] = []
nth zero (x ∷ xs) = x
nth (suc n) (x ∷ xs) = nth n xs

unfoldable pub parse_getent_passwd_line : Bytes → Option OsUser
unfolding split_at
parse_getent_passwd_line line =
    let fields = split_at b':' line in
    if ltb (length fields) 7
      || (text_eq (nth 0 fields) [] || (text_eq (nth 2 fields) [] || text_eq (nth 3 fields) []))
    then none
    else some (record {
      username = nth 0 fields;
      uid = nth 2 fields;
      gid = nth 3 fields;
      name = nth 4 fields;
      home_dir = nth 5 fields;
    })

-- Up to the first newline.
abbrev pub first_line : Bytes → Bytes
first_line s = nth 0 (split_at 10 s)

unfoldable pub lookup_user_with_getent : System → Bytes → Option OsUser
unfolding parse_getent_passwd_line split_at
lookup_user_with_getent sys username = sys.getent_passwd username >>= λ output.
    parse_getent_passwd_line (first_line (sys.trim_space output))

unfoldable pub parse_group_ids : System → Bytes → Option (List Bytes)
parse_group_ids sys output =
    if length (sys.fields output) == 0 then none else some (sys.fields output)

unfoldable pub lookup_group_ids_with_id : System → Bytes → Option (List Bytes)
unfolding parse_group_ids
lookup_group_ids_with_id sys username =
    sys.id_groups username >>= λ output. parse_group_ids sys output

abbrev pub with_groups : OsUser → Option (List Bytes) → Option (OsUser × List Bytes)
with_groups u groups = groups >>= λ ids. some (u, ids)

unfoldable pub lookup_run_as_identity : System → Bytes → Option (OsUser × List Bytes)
unfolding lookup_user_with_getent lookup_group_ids_with_id
lookup_run_as_identity sys username = elim (sys.lookup_os_user username) [
  | some u ↦ elim (sys.lookup_os_user_groups u) [
    | some ids ↦ some (u, ids)
    | none ↦ with_groups u (lookup_group_ids_with_id sys username)
  ]
  | none ↦ lookup_user_with_getent sys username >>= λ u.
      with_groups u (lookup_group_ids_with_id sys username)
]

abbrev pub in_range : ℕ → ℕ → ℕ → Bool
in_range lo hi c = leb lo c && leb c hi

unfoldable pub is_username_char : ℕ → Bool
is_username_char r =
    in_range b'a' b'z' r
    || (in_range b'A' b'Z' r || (in_range b'0' b'9' r || any (λ d. r == d) (text "_-.@")))

abbrev pub starts_with_dash : Bytes → Bool
starts_with_dash [] = false
starts_with_dash (c ∷ s) = c == b'-'

-- Whether there is no error.
unfoldable pub validate_run_as_username : Bytes → Bool
unfolding is_username_char
validate_run_as_username username =
    not (text_eq username [] || (ltb 128 (length username) || starts_with_dash username))
    && not (any (λ r. not (is_username_char r)) username)

abbrev pub is_digit : ℕ → Bool
is_digit c = in_range b'0' b'9' c

unfoldable pub digits_value : ℕ → Bytes → Option ℕ
digits_value acc [] = some acc
digits_value acc (c ∷ s) =
    let rest = digits_value (acc * 10 + (c - b'0')) s in if is_digit c then rest else none

-- `strconv.ParseUint(s, 10, 32)`.
unfoldable pub parse_uint32 : Bytes → Option ℕ
unfolding digits_value
parse_uint32 s =
    if text_eq s [] then none else digits_value 0 s >>= λ n. if ltb n (2 ^ 32) then some n else none

unfoldable pub parse_groups : List Bytes → Option (List ℕ)
unfolding parse_uint32
parse_groups [] = some []
parse_groups (id ∷ ids) = parse_uint32 id >>= λ n. (parse_groups ids >>= λ ns. some (n ∷ ns))

pub record ExecutionIdentity : Type 0 where
  pub uid : ℕ
  pub gid : ℕ
  pub groups : List ℕ
  pub username : Bytes
  pub home_dir : Bytes

unfoldable pub identity_of : OsUser → List Bytes → Result (Option ExecutionIdentity)
unfolding parse_uint32 parse_groups
identity_of u group_ids = elim (parse_uint32 u.uid) [
  | none ↦ raises (text "terminal execution user has invalid uid")
  | some uid ↦ elim (parse_uint32 u.gid) [
    | none ↦ raises (text "terminal execution user has invalid gid")
    | some gid ↦ elim (parse_groups group_ids) [
      | none ↦ raises (text "terminal execution user has invalid group")
      | some groups ↦ returns (
          some (record {
            uid = uid;
            gid = gid;
            groups = groups;
            username = u.username;
            home_dir = u.home_dir;
          }))
    ]
  ]
]

-- No identity is the agent's own.
unfoldable pub execution_identity_for_run_as : System → Bytes → Result (Option ExecutionIdentity)
unfolding identity_of
execution_identity_for_run_as sys run_as =
    if text_eq run_as []
    then returns none
    else if not (validate_run_as_username run_as)
    then raises (text "invalid terminal execution user")
    else elim (lookup_run_as_identity sys run_as) [
      | none ↦ raises (text "terminal execution user not available")
      | some (u, group_ids) ↦ identity_of u group_ids
    ]

abbrev pub user_lines : Bytes → Bytes → List Bytes
user_lines username home_dir =
    (text "USER=" ++ username)
    ∷ (text "LOGNAME=" ++ username)
    ∷ (if text_eq home_dir [] then [] else (text "HOME=" ++ home_dir) ∷ [])

-- `current` is the agent's own user, none on an error.
unfoldable pub build_terminal_env : Bytes → Option ExecutionIdentity → Option OsUser → List Bytes
build_terminal_env shell identity current =
    text "TERM=xterm-256color"
    ∷ text "COLORTERM=truecolor"
    ∷ text "PATH=/usr/local/sbin:/usr/local/bin:/usr/sbin:/usr/bin:/sbin:/bin"
    ∷ (text "SHELL=" ++ shell)
    ∷ text "LANG=C.UTF-8"
    ∷ elim identity [
      | some i ↦ user_lines i.username i.home_dir
      | none ↦ elim current [ none ↦ [] | some u ↦ user_lines u.username u.home_dir ]
    ]

-- The directory of the command before that of the request is applied.
unfoldable pub home_of : Option ExecutionIdentity → Bytes → Bytes
home_of none cwd = []
home_of (some i) cwd = if not (text_eq i.home_dir []) && text_eq cwd [] then i.home_dir else []
