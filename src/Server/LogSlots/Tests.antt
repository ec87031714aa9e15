-- ===== src/Server/LogSlots/Tests.antt =====
-- Runs of the limits on log streams.
use aerodocs.Server.LogSlots.{total_for_server, try_acquire_log_tail_slot}
use aerodocs.Server.LogSlots.Laws.{Op, opens, closes}
use aerodocs.Base.{
  ℕ, ◌≡◌, refl, true, List, [], ◌∷◌, text, text_eq, has_prefix, Table, lookup, delete, assign,
}

abbrev ops : List Op
ops =
    opens (text "s") (text "u") (text "viewer")
    ∷ opens (text "s") (text "u") (text "viewer")
    ∷ closes (text "s") (text "u")
    ∷ []

abbrev four_open : Table ℕ
four_open = (text "s:u", 4) ∷ (text "s:v", 3) ∷ []

fifth_opens : (try_acquire_log_tail_slot (text "s") (text "u") (text "viewer") four_open).1 ≡ true
unfolding try_acquire_log_tail_slot total_for_server has_prefix text_eq lookup assign delete
fifth_opens = refl
