-- ===== src/Auth/Blacklist/Tests.antt =====
-- A token that is revoked until second 100.
use aerodocs.Auth.Blacklist.{TokenBlacklist, add, is_blacklisted}
use aerodocs.Auth.Blacklist.Laws.{Op, adds, cleans, restarts, run, revoked_stays}
use aerodocs.Base.{◌≡◌, refl, true, false, some, List, [], ◌∷◌, arith, text}

abbrev empty : TokenBlacklist
empty = record { entries = []; db = some [] }

abbrev ops : List Op
ops =
    adds (text "k") 200000000000 3000000000 true
    ∷ cleans 4000000000 true
    ∷ restarts 5000000000 false
    ∷ []

revoked_stays_example :
    (is_blacklisted
      (text "j")
      6000000000
      true
      (run (add (text "j") 100000000000 1000000000 true empty) ops)).1
    ≡ true
revoked_stays_example =
    revoked_stays (text "j") 100000000000 1000000000 6000000000 empty [] ops refl
      ((omega arith, λ e. omega arith), (omega arith, (omega arith, tt))) (omega arith)
