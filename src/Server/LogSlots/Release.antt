-- ===== src/Server/LogSlots/Release.antt =====
-- Closing a log stream undoes its opening.
use aerodocs.Server.LogSlots.{slot_key, count_of, try_acquire_log_tail_slot, release_log_tail_slot}
use aerodocs.Server.LogSlots.Laws.{count-assign, count-delete}
use aerodocs.Base.{
  ℕ, suc, ◌-◌, ◌≡◌, refl, inl, inr, true, arith, leb, if◌then◌else◌, Bool-cases, Bytes, text_eq,
  text_eq_refl, eq_of_text_eq, Table, assign,
}

acquired :
    (server user role : Bytes) (m : Table ℕ)
    → (try_acquire_log_tail_slot server user role m).1 ≡ true
    → (try_acquire_log_tail_slot server user role m).0
      ≡ assign (slot_key server user) (suc (count_of (slot_key server user) m)) m
unfolding try_acquire_log_tail_slot
acquired server user role m ok = ground arith

released :
    (server user key : Bytes) (n : ℕ) (m : Table ℕ)
    → count_of key (release_log_tail_slot server user (assign (slot_key server user) (suc n) m))
      ≡ (if text_eq (slot_key server user) key then n else count_of key m)
unfolding release_log_tail_slot
released server user key n m =
    let k = slot_key server user in
    let held : count_of k (assign k (suc n) m) ≡ suc n =
      rw (count-assign k k (suc n) m, text_eq_refl k) refl in
    elim (Bool-cases (leb (suc n) 1)) [
      | inl last ↦
          rw (held, last, count-delete key k (assign k (suc n) m), count-assign key k (suc n) m)
            (ground arith)
      | inr more ↦
          rw
            (
              held,
              more,
              count-assign key k (suc n - 1) (assign k (suc n) m),
              count-assign key k (suc n) m,
            )
            (ground arith)
    ]

-- A stream that was opened and is then closed leaves the number of streams of every user on every
-- server as it was.
pub release-acquire :
    (server user role key : Bytes) (m : Table ℕ)
    → (try_acquire_log_tail_slot server user role m).1 ≡ true
    → count_of key
        (release_log_tail_slot server user (try_acquire_log_tail_slot server user role m).0)
      ≡ count_of key m
release-acquire server user role key m ok =
    let k = slot_key server user in
    rw (acquired server user role m ok, released server user key (count_of k m) m)
      (elim (Bool-cases (text_eq k key)) [
        | inl same ↦ let eq = eq_of_text_eq k key same in rw (same, eq) refl
        | inr other ↦ rw other refl
      ])
