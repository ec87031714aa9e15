-- ===== src/Server/Login/Tests.antt =====
-- A user with one-time codes.
use aerodocs.Server.Gate.{Claims}
use aerodocs.Server.Login.{
  Account, Accounts, Auth, fails, token_pair, find_user, get_user_by_id, claims_of,
  increment_token_generation, begin_refresh, finish_refresh, incremented, handle_login,
  handle_login_totp, handle_refresh,
}
use aerodocs.Server.Login.TwoFactor.{
  FirstStep, handle_login-FirstStep, SecondStep, handle_login_totp-SecondStep,
}
use aerodocs.Server.Login.Rotation.{Refreshes, handle_refresh-Rotates}
use aerodocs.Base.{
  ℕ, ◌+◌, ◌≡◌, refl, ◌⊎◌, true, false, none, some, [], ◌∷◌, returns, Bytes, text, text_eq,
}

abbrev user : Account
user = record {
  id = text "u";
  username = text "ann";
  password_hash = text "h";
  role = text "viewer";
  auth_provider = text "local";
  totp_secret = some (text "s");
  totp_enabled = true;
  must_change_password = false;
  temp_password_expires_at = none;
  token_generation = 4;
}

abbrev accounts : Accounts
accounts = record { users = user ∷ []; totp_cache = none }

-- A token names its type, and is of the user at generation 4.
abbrev auth : Auth
auth = record {
  compare_password = λ h p. true;
  authenticate_ldap = λ n p. none;
  validate_token = λ t. some (record {
    id = [];
    subject = text "u";
    role = text "viewer";
    token_type = t;
    token_generation = 4;
  });
  decrypt_totp_secret = λ s. none;
  is_valid_code = λ c s. true;
}

handle_login-FirstStep_example :
    FirstStep auth 1
      (text "ann")
      (text "p")
      accounts
      (handle_login auth 1 (some (text "ann", text "p")) accounts)
handle_login-FirstStep_example = handle_login-FirstStep auth 1 (text "ann") (text "p") accounts

handle_login_totp-SecondStep_example :
    let reply = (handle_login_totp auth 1 (some (text "totp", text "123456")) accounts).1 in
    ((status : ℕ) × ((message : Bytes) × (reply ≡ fails status message)))
    ⊎ SecondStep auth (text "totp") (text "123456") accounts reply
handle_login_totp-SecondStep_example =
    handle_login_totp-SecondStep auth 1 (text "totp") (text "123456") accounts

handle_refresh-Rotates_example :
    ((error : Bytes) × (handle_refresh auth (text "refresh") accounts
        ≡ (accounts, fails 401 error)))
    ⊎ ((r : Refreshes auth (text "refresh") accounts) × (((handle_refresh auth
              (text "refresh")
              accounts).1
            ≡ token_pair r.user.id r.user.role (r.user.token_generation + 1))
          × ((old : Bytes) (claims : Claims)
              → claims_of auth (text "refresh") old ≡ some claims
              → claims.subject ≡ r.claims.subject
              → claims.token_generation ≡ r.user.token_generation
              → handle_refresh auth old (handle_refresh auth (text "refresh") accounts).0 ≡ (
                (handle_refresh auth (text "refresh") accounts).0,
                fails 401 (text "token has been revoked"),
              ))))
handle_refresh-Rotates_example = handle_refresh-Rotates auth (text "refresh") accounts

-- Two refreshes with one token whose steps interleave: both are accepted, and both answers have the
-- generation that the user has in the end.
abbrev twice : Accounts
twice = incremented (text "u") (incremented (text "u") accounts)

raced :
    (begin_refresh auth (text "refresh") accounts ≡ returns user)
    × ((finish_refresh user twice ≡ token_pair (text "u") (text "viewer") 6)
        × (get_user_by_id (text "u") twice.users ≡ some (record user { token_generation = 6 })))
unfolding begin_refresh claims_of finish_refresh get_user_by_id find_user increment_token_generation
    text_eq
raced = (refl, (refl, refl))
