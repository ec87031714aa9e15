-- ===== src/Agent/LogTailer/Contiguous.antt =====
-- A tail of a file that only grows sends every byte once, in order, and catches up.
use aerodocs.Agent.LogTailer.{Grep, LogChunk, Poll, megabyte, read_size, read_new_data, run}
use aerodocs.Agent.LogTailer.Laws.{
  content_of, Sees, Growing, Advances, advances, append_nil, slice_at,
}
use aerodocs.Base.{
  ℕ, zero, suc, ◌+◌, ◌*◌, ◌≤◌, ◌≡◌, refl, sym, ap, ◌∙◌, true, List, [], ◌∷◌, ◌++◌, arith, length,
  length-append, take, drop, Bytes, text_eq,
}

-- What the last poll sees.
abbrev pub final_content : (base : Bytes) (ps : List Poll) → Growing base ps → Bytes
final_content base [] growing = base
final_content base (p ∷ ps) (more, (sees, growing)) = final_content (base ++ more) ps growing

-- Where the polls of a growing file lead.
pub record Contiguous (g : Grep) (base content : Bytes) (ps : List Poll) (offset : ℕ) : Type 0 where
  pub more : Bytes
  pub grows : content ≡ base ++ more
  pub forward : offset ≤ (run g ps offset).0
  pub within : (run g ps offset).0 ≤ length content
  pub exact :
      content_of (run g ps offset).1 ++ drop (run g ps offset).0 content ≡ drop offset content

append_assoc : (a b c : Bytes) → (a ++ b) ++ c ≡ a ++ (b ++ c)
append_assoc [] b c = refl
append_assoc (x ∷ a) b c = ap (λ t. x ∷ t) (append_assoc a b c)

content_of-append : (a b : List LogChunk) → content_of (a ++ b) ≡ content_of a ++ content_of b
content_of-append [] b = refl
content_of-append ((bytes, offset) ∷ a) b =
    rw (content_of-append a b) (sym (append_assoc bytes (content_of a) (content_of b)))

-- The first poll, and the polls after it.
joined :
    (g : Grep) (c : Bytes) (p : Poll) (ps : List Poll) (offset : ℕ) (rest : Bytes)
    → Advances g c p offset
    → offset ≤ length c
    → let next = (read_new_data g p offset).1.0 in
      let last = (run g ps next).0 in
      content_of (run g ps next).1 ++ drop last (c ++ rest) ≡ drop next (c ++ rest)
      → content_of (run g (p ∷ ps) offset).1 ++ drop last (c ++ rest) ≡ drop offset (c ++ rest)
unfolding run
joined g c p ps offset rest adv le exact =
    let q = read_new_data g p offset in
    let n = read_size (length c) offset in
    let last = (run g ps q.1.0).0 in
    let inside : offset + n ≤ length c = ground (arith, le) in
    let split : content_of (q.1.1 ++ (run g ps q.1.0).1)
        ≡ content_of q.1.1 ++ content_of (run g ps q.1.0).1 =
      content_of-append q.1.1 (run g ps q.1.0).1 in
    rw
      (
        split,
        append_assoc (content_of q.1.1) (content_of (run g ps q.1.0).1) (drop last (c ++ rest)),
        exact,
        adv.bytes,
        adv.next,
      )
      (slice_at offset n c rest inside)

next_within :
    (g : Grep) (c : Bytes) (p : Poll) (offset : ℕ)
    → Advances g c p offset
    → offset ≤ length c
    → (read_new_data g p offset).1.0 ≤ length c
next_within g c p offset adv le = rw adv.next (ground (arith, le))

-- Without a search, a tail of a file that only grows sends, chunk after chunk, exactly the bytes that
-- the file has at the last poll, from its offset to the offset it comes to, in order, without a gap or
-- a repetition.
pub run-Contiguous :
    (g : Grep) (base : Bytes) (ps : List Poll) (offset : ℕ)
    → text_eq g.pattern [] ≡ true
    → (growing : Growing base ps) → offset ≤ length base
    → Contiguous g base (final_content base ps growing) ps offset
unfolding run
run-Contiguous g base [] offset plain growing le = record {
  more = [];
  grows = sym (append_nil base);
  forward = omega arith;
  within = le;
  exact = refl;
}
run-Contiguous g base (p ∷ ps) offset plain (more, (sees, growing)) le =
    let c = base ++ more in
    let le' : offset ≤ length c = omega (arith, le, length-append base more) in
    let adv = advances g c p offset plain sees le' in
    let next = (read_new_data g p offset).1.0 in
    let tail = run-Contiguous g c ps next plain growing (next_within g c p offset adv le') in
    let grown : final_content c ps growing ≡ base ++ (more ++ tail.more) =
      tail.grows ∙ append_assoc base more tail.more in
    record {
      more = more ++ tail.more;
      grows = grown;
      forward = omega (arith, tail.forward, adv.next);
      within = tail.within;
      exact =
          rw tail.grows (joined g c p ps offset tail.more adv le' (rw (sym tail.grows) tail.exact));
    }

drop_all : (n : ℕ) (c : Bytes) → length c ≤ n → drop n c ≡ []
drop_all zero [] h = refl
drop_all zero (x ∷ c) h = absurd (omega (arith, h))
drop_all (suc n) [] h = refl
drop_all (suc n) (x ∷ c) h = drop_all n c (omega (arith, h))

-- Every poll sees the same content.
abbrev pub AllSee : Bytes → List Poll → Type 0
AllSee c [] = Unit
AllSee c (p ∷ ps) = Sees c p × AllSee c ps

-- A file that has stopped growing is sent to its end, from the offset on: a poll for each megabyte that
-- is left is enough.
pub run_caught_up :
    (g : Grep) (c : Bytes) (ps : List Poll) (offset : ℕ)
    → text_eq g.pattern [] ≡ true
    → AllSee c ps
    → offset ≤ length c
    → length c ≤ offset + length ps * megabyte
    → ((run g ps offset).0 ≡ length c) × (content_of (run g ps offset).1 ≡ drop offset c)
unfolding run
run_caught_up g c [] offset plain all le enough =
    (omega (arith, le, enough), sym (drop_all offset c (omega (arith, enough))))
run_caught_up g c (p ∷ ps) offset plain (sees, all) le enough =
    let adv = advances g c p offset plain sees le in
    let next = (read_new_data g p offset).1.0 in
    let left : length c ≤ next + length ps * megabyte = rw adv.next (ground (arith, enough)) in
    let (there, sent) =
      run_caught_up g c ps next plain all (next_within g c p offset adv le) left in
    let n = read_size (length c) offset in
    let inside : offset + n ≤ length c = ground (arith, le) in
    let whole : take n (drop offset c) ++ drop (offset + n) c ≡ drop offset c =
      rw (append_nil c) at (slice_at offset n c [] inside) in
    let apart = content_of-append (read_new_data g p offset).1.1 (run g ps next).1 in
    (there, rw (apart, sent, adv.bytes, adv.next) whole)
