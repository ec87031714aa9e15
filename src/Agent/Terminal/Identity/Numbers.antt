-- ===== src/Agent/Terminal/Identity/Numbers.antt =====
-- Numbers as decimal digits.
use native.Mathlib.Nat.{pow-succ'}
use aerodocs.Agent.Terminal.Identity.{is_digit, digits_value, parse_uint32, parse_groups}
use aerodocs.Base.{
  ℕ, ◌+◌, ◌-◌, ◌*◌, ◌^◌, ◌<◌, ◌≡◌, sym, ◌∙◌, ◌≢◌, inl, inr, true, some, List, [], ◌∷◌, arith,
  Bool-cases, Option-cases, length, All, Bytes, text_eq_iff,
}

-- The number that digits stand for.
abbrev pub decimal : Bytes → ℕ
decimal [] = 0
decimal (c ∷ s) = (c - b'0') * 10 ^ length s + decimal s

-- A number below 2^32, in decimal digits.
pub record IsNumber (s : Bytes) (n : ℕ) : Type 0 where
  pub nonempty : s ≢ []
  pub digits : All (λ c. is_digit c ≡ true) s
  pub value : n ≡ decimal s
  pub small : n < 2 ^ 32

abbrev pub AreNumbers : List Bytes → List ℕ → Type 0
AreNumbers [] [] = Unit
AreNumbers (s ∷ ss) (n ∷ ns) = IsNumber s n × AreNumbers ss ns
AreNumbers _ _ = ⊥

shifted : (acc d p r : ℕ) → (acc * 10 + d) * p + r ≡ acc * (10 * p) + (d * p + r)
shifted acc d p r = grind arith

digits_value-decimal :
    (s : Bytes) (acc n : ℕ)
    → digits_value acc s ≡ some n
    → All (λ c. is_digit c ≡ true) s × (n ≡ acc * 10 ^ length s + decimal s)
unfolding digits_value
digits_value-decimal [] acc n e = (tt, ground (arith, e))
digits_value-decimal (c ∷ s) acc n e = elim (Bool-cases (is_digit c)) [
  | inr other ↦ absurd (ground (arith, other, e))
  | inl digit ↦
      let there : digits_value (acc * 10 + (c - b'0')) s ≡ some n = ground (arith, digit, e) in
      let (rest, value) = digits_value-decimal s (acc * 10 + (c - b'0')) n there in
      (
        (digit, rest),
        value ∙ (rw (pow-succ' 10 (length s)) (shifted acc (c - b'0') (10 ^ length s) (decimal s))),
      )
]

pub parse_uint32-IsNumber : (s : Bytes) (n : ℕ) → parse_uint32 s ≡ some n → IsNumber s n
unfolding parse_uint32
parse_uint32-IsNumber s n e = elim (Option-cases (digits_value 0 s)) [
  | inl bad ↦ absurd (ground (arith, bad, e))
  | inr (v, read) ↦
      let same : v ≡ n = ground (arith, read, e) in
      let (digits, value) = digits_value-decimal s 0 v read in
      record {
        nonempty = ground (arith, e, text_eq_iff s []);
        digits = digits;
        value = sym same ∙ (value ∙ omega arith);
        small = ground (arith, read, e);
      }
]

pub parse_groups-AreNumbers :
    (ids : List Bytes) (ns : List ℕ) → parse_groups ids ≡ some ns → AreNumbers ids ns
unfolding parse_groups
parse_groups-AreNumbers [] ns e = let same : [] ≡ ns = ground (arith, e) in rw (sym same) tt
parse_groups-AreNumbers (id ∷ ids) ns e = elim (Option-cases (parse_uint32 id)) [
  | inl bad ↦ absurd (ground (arith, bad, e))
  | inr (n, read) ↦ elim (Option-cases (parse_groups ids)) [
    | inl bad ↦ absurd (ground (arith, read, bad, e))
    | inr (ms, more) ↦
        let same : n ∷ ms ≡ ns = ground (arith, read, more, e) in
        rw (sym same) (parse_uint32-IsNumber id n read, parse_groups-AreNumbers ids ms more)
  ]
]
