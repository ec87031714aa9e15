-- ===== src/Server/Login.antt =====
-- hub/internal/server/handlers_auth.go: the two steps of a login and the refresh of a session, with the
-- store's token generation. A token is what it says; the passwords' hash, LDAP, the check of a token and of
-- a code and the decryption of a secret are parameters, none on an error. The database does not fail.
pub mod TwoFactor
pub mod Rotation
mod Tests
use aerodocs.Auth.Totp.{TotpUsedCodes, validate_totp_with_replay}
use aerodocs.Server.Gate.{Claims}
use aerodocs.Base.{
  ℕ, ◌+◌, Bool, false, not, ◌&&◌, Option, none, some, List, [], ◌∷◌, ◌++◌, ltb, ◌==◌, if◌then◌else◌,
  Result, returns, raises, ◌>>=◌, Bytes, text, text_eq, has_prefix,
}

pub record Account : Type 0 where
  pub id : Bytes
  pub username : Bytes
  pub password_hash : Bytes
  pub role : Bytes
  pub auth_provider : Bytes
  pub totp_secret : Option Bytes
  pub totp_enabled : Bool
  pub must_change_password : Bool
  pub temp_password_expires_at : Option ℕ
  pub token_generation : ℕ

pub record Accounts : Type 0 where
  pub users : List Account
  pub totp_cache : Option TotpUsedCodes

pub record Auth : Type 0 where
  pub compare_password : Bytes → Bytes → Bool
  pub authenticate_ldap : Bytes → Bytes → Option Account
  pub validate_token : Bytes → Option Claims
  pub decrypt_totp_secret : Bytes → Option Bytes
  pub is_valid_code : Bytes → Bytes → Bool

-- An answer: an error, a token for the set-up of TOTP with its flag, one for the second step, or the
-- access and refresh tokens of a user, with their role and generation.
pub data Reply : Type 0 where
  fails : ℕ → Bytes → Reply
  setup_token : Bytes → Bytes → Bool → Reply
  totp_token : Bytes → Bytes → Reply
  token_pair : Bytes → Bytes → ℕ → Reply

unfoldable pub find_user : (Account → Bool) → List Account → Option Account
find_user p [] = none
find_user p (user ∷ users) = if p user then some user else find_user p users

abbrev pub has_id : Bytes → Account → Bool
has_id id user = text_eq user.id id

unfoldable pub get_user_by_id : Bytes → List Account → Option Account
unfolding find_user
get_user_by_id id users = find_user (has_id id) users

unfoldable pub get_user_by_username : Bytes → List Account → Option Account
unfolding find_user
get_user_by_username username users = find_user (λ user. text_eq user.username username) users

unfoldable pub respond_after_primary_login : Account → Reply
respond_after_primary_login user =
    if not user.totp_enabled
    then setup_token user.id user.role user.must_change_password
    else totp_token user.id user.role

abbrev pub after_ldap : Option Account → Reply
after_ldap none = fails 401 (text "invalid credentials")
after_ldap (some user) = respond_after_primary_login user

abbrev pub is_past : ℕ → Option ℕ → Bool
is_past now none = false
is_past now (some at) = ltb at now

-- The body is the decoded username and password.
unfoldable pub handle_login : Auth → ℕ → Option (Bytes × Bytes) → Accounts → Reply
unfolding respond_after_primary_login
handle_login auth now none accounts = fails 400 (text "invalid request body")
handle_login auth now (some (username, password)) accounts =
    elim (get_user_by_username username accounts.users) [
      | none ↦ after_ldap (auth.authenticate_ldap username password)
      | some user ↦
          if text_eq user.auth_provider (text "ldap")
          then after_ldap (auth.authenticate_ldap username password)
          else if not (auth.compare_password user.password_hash password)
          then fails 401 (text "invalid credentials")
          else if user.must_change_password && is_past now user.temp_password_expires_at
          then fails 401 (
              text "temporary password expired "
              ++ 226 ∷ 128 ∷ 148 ∷ text " contact an administrator")
          else respond_after_primary_login user
    ]

-- The secret in clear; none is an error of the decryption.
unfoldable pub clear_secret : Auth → Option Bytes → Option (Option Bytes)
clear_secret auth none = some none
clear_secret auth (some secret) =
    if has_prefix secret (text "enc:")
    then (auth.decrypt_totp_secret secret >>= λ clear. some (some clear))
    else some (some secret)

unfoldable pub check_code : Auth → ℕ → Bytes → Option Bytes → Account → Accounts → Accounts × Reply
check_code auth now code none user accounts = (accounts, fails 401 (text "invalid TOTP code"))
check_code auth now code (some secret) user accounts =
    let (cache, valid) =
      validate_totp_with_replay auth.is_valid_code user.id secret code now accounts.totp_cache in
    (
      record accounts { totp_cache = cache },
      if not valid
          then fails 401 (text "invalid TOTP code")
          else token_pair user.id user.role user.token_generation,
    )

-- The claims of a token of one type.
unfoldable pub claims_of : Auth → Bytes → Bytes → Option Claims
claims_of auth token_type token = auth.validate_token token >>= λ claims.
    if not (text_eq claims.token_type token_type) then none else some claims

-- The body is the decoded token and code.
unfoldable pub handle_login_totp : Auth → ℕ → Option (Bytes × Bytes) → Accounts → Accounts × Reply
unfolding claims_of clear_secret check_code
handle_login_totp auth now none accounts = (accounts, fails 400 (text "invalid request body"))
handle_login_totp auth now (some (token, code)) accounts =
    elim (claims_of auth (text "totp") token) [
      | none ↦ (accounts, fails 401 (text "invalid or expired TOTP token"))
      | some claims ↦ elim (get_user_by_id claims.subject accounts.users) [
        | none ↦ (accounts, fails 401 (text "user not found"))
        | some user ↦ elim (clear_secret auth user.totp_secret) [
          | none ↦ (accounts, fails 500 (text "failed to decrypt TOTP secret"))
          | some secret ↦ check_code auth now code secret user accounts
        ]
      ]
    ]

-- The `UPDATE` of IncrementTokenGeneration.
unfoldable pub increment_token_generation : Bytes → List Account → List Account
increment_token_generation id [] = []
increment_token_generation id (user ∷ users) =
    (if has_id id user then record user { token_generation = user.token_generation + 1 } else user)
    ∷ increment_token_generation id users

-- handleRefresh up to its `UPDATE`: the user whose generation the token has.
unfoldable pub begin_refresh : Auth → Bytes → Accounts → Result Account
unfolding claims_of
begin_refresh auth token accounts = elim (claims_of auth (text "refresh") token) [
  | none ↦ raises (text "invalid or expired refresh token")
  | some claims ↦ elim (get_user_by_id claims.subject accounts.users) [
    | none ↦ raises (text "user no longer exists")
    | some user ↦
        if not (claims.token_generation == user.token_generation)
        then raises (text "token has been revoked")
        else returns user
  ]
]

-- The rest, after the `UPDATE`, which reads the new generation.
unfoldable pub finish_refresh : Account → Accounts → Reply
finish_refresh user accounts = elim (get_user_by_id user.id accounts.users) [
  | none ↦ fails 500 (text "failed to rotate token generation")
  | some now ↦ token_pair user.id user.role now.token_generation
]

abbrev pub incremented : Bytes → Accounts → Accounts
incremented id accounts = record accounts { users = increment_token_generation id accounts.users }

-- A refresh that nothing else interrupts.
unfoldable pub handle_refresh : Auth → Bytes → Accounts → Accounts × Reply
unfolding begin_refresh finish_refresh increment_token_generation
handle_refresh auth token accounts = elim (begin_refresh auth token accounts) [
  | raises error ↦ (accounts, fails 401 error)
  | returns user ↦
      (incremented user.id accounts, finish_refresh user (incremented user.id accounts))
]
