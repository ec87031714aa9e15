-- ===== src/Server/Login/TwoFactor.antt =====
-- What a login needs: the password first, then a code.
use aerodocs.Auth.Totp.{TotpUsedCodes, validate_totp_with_replay}
use aerodocs.Server.Gate.{Claims}
use aerodocs.Server.Login.{
  Account, Accounts, Auth, Reply, fails, setup_token, totp_token, token_pair, get_user_by_id,
  get_user_by_username, respond_after_primary_login, after_ldap, is_past, handle_login,
  clear_secret, check_code, claims_of, handle_login_totp,
}
use aerodocs.Base.{
  ℕ, ◌≡◌, refl, ◌⊎◌, inl, inr, Bool, true, false, ◌&&◌, Option, none, some, arith, Bool-cases,
  Option-cases, Bytes, text, text_eq,
}

-- Who a username and a password belong to: a user that LDAP knows, or a local one whose password it is, and
-- not a temporary one that is past.
pub record Known (auth : Auth) (now : ℕ) (username password : Bytes) (accounts : Accounts)
    (user : Account) : Type 0 where
  pub proof :
      (auth.authenticate_ldap username password ≡ some user)
      ⊎ ((get_user_by_username username accounts.users ≡ some user)
          × ((auth.compare_password user.password_hash password ≡ true)
              × (user.must_change_password && is_past now user.temp_password_expires_at ≡ false)))

-- A first step that is not refused: it gives a token for one more step, of the user's, and no session.
abbrev pub FirstStep : Auth → ℕ → Bytes → Bytes → Accounts → Reply → Type 0
FirstStep auth now username password accounts reply =
    ((status : ℕ) × ((message : Bytes) × (reply ≡ fails status message)))
    ⊎ ((user : Account) × (Known auth now username password accounts user
          × (((user.totp_enabled ≡ false)
                × (reply ≡ setup_token user.id user.role user.must_change_password))
              ⊎ ((user.totp_enabled ≡ true) × (reply ≡ totp_token user.id user.role)))))

module _ (auth : Auth) (now : ℕ) (username password : Bytes) (accounts : Accounts) where
  Known-FirstStep :
      (user : Account)
      → Known auth now username password accounts user
      → FirstStep auth now username password accounts (respond_after_primary_login user)
  unfolding respond_after_primary_login
  Known-FirstStep user known = elim (Bool-cases user.totp_enabled) [
    | inl on ↦ inr (user, (known, inr (on, rw on refl)))
    | inr off ↦ inr (user, (known, inl (off, rw off refl)))
  ]

  ldap-FirstStep :
      (found : Option Account)
      → auth.authenticate_ldap username password ≡ found
      → FirstStep auth now username password accounts (after_ldap found)
  ldap-FirstStep none e = inl (401, (text "invalid credentials", refl))
  ldap-FirstStep (some user) e = Known-FirstStep user (record { proof = inl e })

  -- The first step of a login is refused, or the username and the password are those of a user, and the
  -- answer is a token for a second step: to set up one-time codes, or to give one. It is never a session.
  pub handle_login-FirstStep :
      FirstStep auth now username password accounts
        (handle_login auth now (some (username, password)) accounts)
  unfolding handle_login
  handle_login-FirstStep = elim (Option-cases (get_user_by_username username accounts.users)) [
    | inl gone ↦
        rw (gone, handle_login) (ldap-FirstStep (auth.authenticate_ldap username password) refl)
    | inr (user, found) ↦ elim (Bool-cases (text_eq user.auth_provider (text "ldap"))) [
      | inl ldap ↦
          rw (found, ldap, handle_login)
            (ldap-FirstStep (auth.authenticate_ldap username password) refl)
      | inr local ↦ elim (Bool-cases (auth.compare_password user.password_hash password)) [
        | inr wrong ↦ rw (found, local, wrong, handle_login) (inl (_, (_, refl)))
        | inl right ↦
            elim (Bool-cases
              (user.must_change_password && is_past now user.temp_password_expires_at)) [
                | inl late ↦ rw (found, local, right, late, handle_login) (inl (_, (_, refl)))
                | inr timely ↦
                    rw (found, local, right, timely, handle_login)
                      (Known-FirstStep user (record { proof = inr (found, (right, timely)) }))
              ]
      ]
    ]
  ]

-- A second step that gives a session: the token is one of the first step, of that user, and the code is
-- right for the user's secret.
pub record SecondStep (auth : Auth) (token code : Bytes) (accounts : Accounts) (reply : Reply)
    : Type 0 where
  pub claims : Claims
  pub token_valid : claims_of auth (text "totp") token ≡ some claims
  pub user : Account
  pub user_found : get_user_by_id claims.subject accounts.users ≡ some user
  pub secret : Bytes
  pub secret_is : clear_secret auth user.totp_secret ≡ some (some secret)
  pub code_valid : auth.is_valid_code code secret ≡ true
  pub pair : reply ≡ token_pair user.id user.role user.token_generation

code_needed :
    (is_valid : Bytes → Bytes → Bool) (user secret code : Bytes) (now : ℕ)
    (cache : Option TotpUsedCodes)
    → (validate_totp_with_replay is_valid user secret code now cache).1 ≡ true
    → is_valid code secret ≡ true
unfolding validate_totp_with_replay
code_needed is_valid user secret code now none ok = ok
code_needed is_valid user secret code now (some c) ok = elim (Bool-cases (is_valid code secret)) [
  | inl right ↦ right
  | inr wrong ↦ absurd (ground (arith, wrong, ok))
]

-- The second step of a login is refused, or it needs a token of the first step and a code that is right for
-- the secret of the token's user, and it gives a session of that user at the user's present role and generation.
pub handle_login_totp-SecondStep :
    (auth : Auth) (now : ℕ) (token code : Bytes) (accounts : Accounts)
    → let reply = (handle_login_totp auth now (some (token, code)) accounts).1 in
      ((status : ℕ) × ((message : Bytes) × (reply ≡ fails status message)))
      ⊎ SecondStep auth token code accounts reply
unfolding handle_login_totp check_code
handle_login_totp-SecondStep auth now token code accounts =
    elim (Option-cases (claims_of auth (text "totp") token)) [
      | inl bad ↦ rw (bad, handle_login_totp) (inl (_, (_, refl)))
      | inr (claims, valid) ↦ elim (Option-cases (get_user_by_id claims.subject accounts.users)) [
        | inl gone ↦ rw (valid, gone, handle_login_totp) (inl (_, (_, refl)))
        | inr (user, found) ↦ elim (Option-cases (clear_secret auth user.totp_secret)) [
          | inl broken ↦ rw (valid, found, broken, handle_login_totp) (inl (_, (_, refl)))
          | inr (none, unset) ↦ rw (valid, found, unset, handle_login_totp) (inl (_, (_, refl)))
          | inr (some secret, clear) ↦
              let checked =
                validate_totp_with_replay auth.is_valid_code user.id secret code now
                  accounts.totp_cache in
              elim (Bool-cases checked.1) [
                | inr wrong ↦
                    rw (valid, found, clear, wrong, handle_login_totp) (inl (_, (_, refl)))
                | inl right ↦
                    rw (valid, found, clear, right, handle_login_totp)
                      (inr (record {
                        claims = claims;
                        token_valid = valid;
                        user = user;
                        user_found = found;
                        secret = secret;
                        secret_is = clear;
                        code_valid =
                            code_needed auth.is_valid_code user.id secret code now
                              accounts.totp_cache right;
                        pair = refl;
                      }))
              ]
        ]
      ]
    ]
