-- ===== src/Auth/Totp/Tests.antt =====
-- Runs of the cache of used one-time codes.
use aerodocs.Auth.Totp.{TotpUsedCodes, code_key, check_and_mark, validate_totp_with_replay}
use aerodocs.Auth.Totp.Replay.{Op, marks, logs_in, run, validate_totp_with_replay-once}
use aerodocs.Base.{
  ◌≡◌, refl, Bool, true, false, some, List, [], ◌∷◌, arith, Bytes, text, lookup, delete, assign,
}

abbrev any_code : Bytes → Bytes → Bool
any_code code secret = true

abbrev after_login : TotpUsedCodes
after_login = record { codes = (text "u:123456", 1000) ∷ [] }

abbrev meanwhile : List Op
meanwhile =
    marks (text "u") (text "111111") 2000 ∷ logs_in (text "v") (text "k") (text "123456") 3000 ∷ []

first_login :
    validate_totp_with_replay any_code
      (text "u")
      (text "k")
      (text "123456")
      1000
      (some (record { codes = [] }))
    ≡ (some after_login, true)
unfolding validate_totp_with_replay check_and_mark code_key lookup assign delete
first_login = refl

validate_totp_with_replay-once_example :
    validate_totp_with_replay any_code
      (text "u")
      (text "k")
      (text "123456")
      5000
      (some (run any_code after_login meanwhile))
    ≡ (some (run any_code after_login meanwhile), false)
validate_totp_with_replay-once_example =
    validate_totp_with_replay-once any_code (text "u") (text "k") (text "123456") (text "k") 1000
      5000 (record { codes = [] }) after_login meanwhile first_login (omega arith)
