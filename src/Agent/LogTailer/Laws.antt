-- ===== src/Agent/LogTailer/Laws.antt =====
-- What one poll of a log file sends.
use aerodocs.Agent.LogTailer.{Grep, LogChunk, send_filtered, Poll, read_size, grown, read_new_data}
use aerodocs.Base.{
  ℕ, zero, suc, ◌+◌, ◌≤◌, ◌<◌, ◌≡◌, refl, ap, ◌∙◌, inl, inr, true, false, some, List, [], ◌∷◌, ◌++◌,
  arith, ltb, ◌==◌, Bool-cases, length, take, drop, length-take, length-drop, Bytes, text_eq,
}

-- The bytes of the chunks, in order.
abbrev pub content_of : List LogChunk → Bytes
content_of [] = []
content_of ((bytes, offset) ∷ sent) = bytes ++ content_of sent

-- A poll of the held file, at a time when this is its content.
pub record Sees (content : Bytes) (p : Poll) : Type 0 where
  pub size : p.stat ≡ some (length content)
  pub reads : (start n : ℕ) → p.read start n ≡ some (take n (drop start content))

-- The polls of a file that grows.
abbrev pub Growing : Bytes → List Poll → Type 0
Growing content [] = Unit
Growing content (p ∷ ps) =
    (more : Bytes) × (Sees (content ++ more) p × Growing (content ++ more) ps)

pub append_nil : (b : Bytes) → b ++ [] ≡ b
append_nil [] = refl
append_nil (x ∷ b) = ap (λ t. x ∷ t) (append_nil b)

unfiltered :
    (g : Grep) (bytes : Bytes) (offset : ℕ)
    → text_eq g.pattern [] ≡ true
    → content_of (send_filtered g bytes offset) ≡ bytes
unfolding send_filtered
unfiltered g [] offset plain = rw (plain, send_filtered) refl
unfiltered g (b ∷ bytes) offset plain =
    let some_bytes : (length (b ∷ bytes) == 0) ≡ false = ground arith in
    rw (plain, some_bytes, send_filtered) (append_nil (b ∷ bytes))

slice : (n : ℕ) (c rest : Bytes) → n ≤ length c → take n c ++ drop n (c ++ rest) ≡ c ++ rest
slice zero c rest h = refl
slice (suc n) [] rest h = absurd (omega (arith, h))
slice (suc n) (x ∷ c) rest h = ap (λ t. x ∷ t) (slice n c rest (omega (arith, h)))

-- A part of the file, and what follows it.
pub slice_at :
    (start n : ℕ) (c rest : Bytes)
    → start + n ≤ length c
    → take n (drop start c) ++ drop (start + n) (c ++ rest) ≡ drop start (c ++ rest)
slice_at zero n c rest h =
    let e : 0 + n ≡ n = omega arith in rw e (slice n c rest (omega (arith, h)))
slice_at (suc start) n [] rest h = absurd (omega (arith, h))
slice_at (suc start) n (x ∷ c) rest h =
    let e : suc start + n ≡ suc (start + n) = omega arith in
    rw e (slice_at start n c rest (omega (arith, h)))

-- What a poll of a file with this content does without a search.
pub record Advances (g : Grep) (c : Bytes) (p : Poll) (offset : ℕ) : Type 0 where
  pub kept : (read_new_data g p offset).0 ≡ false
  pub next : (read_new_data g p offset).1.0 ≡ offset + read_size (length c) offset
  pub bytes :
      content_of (read_new_data g p offset).1.1 ≡ take (read_size (length c) offset) (drop offset c)

length_part :
    (c : Bytes) (offset : ℕ)
    → length (take (read_size (length c) offset) (drop offset c)) ≡ read_size (length c) offset
length_part c offset =
    ground (arith, length-take (read_size (length c) offset) (drop offset c), length-drop offset c)

grown_value :
    (g : Grep) (c : Bytes) (p : Poll) (offset : ℕ)
    → Sees c p
    → let content = take (read_size (length c) offset) (drop offset c) in
      (length content == 0) ≡ false
      → grown g p (length c) offset
        ≡ (false, (offset + length content, send_filtered g content (offset + length content)))
unfolding grown
grown_value g c p offset sees full =
    rw (sees.reads offset (read_size (length c) offset), full, grown) refl

pub advances :
    (g : Grep) (c : Bytes) (p : Poll) (offset : ℕ)
    → text_eq g.pattern [] ≡ true
    → Sees c p
    → offset ≤ length c
    → Advances g c p offset
unfolding read_new_data
advances g c p offset plain sees le = elim (Bool-cases (length c == offset)) [
  | inl done ↦
      let not_less : ltb (length c) offset ≡ false = ground (arith, le) in
      let value : read_new_data g p offset ≡ (false, (offset, [])) =
        rw (sees.size, not_less, done, read_new_data) refl in
      let nothing : read_size (length c) offset ≡ 0 = ground (arith, done) in
      record {
        kept = ap (λ r. r.0) value;
        next = ap (λ r. r.1.0) value ∙ omega (arith, nothing);
        bytes = ap (λ r. content_of r.1.1) value ∙ rw nothing refl;
      }
  | inr more ↦
      let n = read_size (length c) offset in
      let content = take n (drop offset c) in
      let not_less : ltb (length c) offset ≡ false = ground (arith, le) in
      let positive : 0 < n = ground (arith, more, le) in
      let full : (length content == 0) ≡ false = ground (arith, length_part c offset, positive) in
      let value : read_new_data g p offset
          ≡ (false, (offset + length content, send_filtered g content (offset + length content))) =
        rw (sees.size, not_less, more, read_new_data) (grown_value g c p offset sees full) in
      record {
        kept = ap (λ r. r.0) value;
        next = ap (λ r. r.1.0) value ∙ rw (length_part c offset) refl;
        bytes =
            ap (λ r. content_of r.1.1) value ∙ unfiltered g content (offset + length content) plain;
      }
]
