-- ===== src/Agent/LogTailer/Tests.antt =====
-- A file of three bytes that gets a fourth.
use aerodocs.Agent.LogTailer.{Grep, Poll, run}
use aerodocs.Agent.LogTailer.Laws.{content_of, Sees, Growing}
use aerodocs.Agent.LogTailer.Contiguous.{final_content, Contiguous, run-Contiguous, run_caught_up}
use aerodocs.Base.{
  ◌≡◌, refl, true, none, some, List, [], ◌∷◌, arith, length, take, drop, Bytes, text_eq,
}

abbrev no_grep : Grep
no_grep = record { pattern = []; to_lower = λ s. s; scan_lines = λ s. s ∷ [] }

abbrev poll : Bytes → Poll
poll c = record {
  stat = some (length c);
  reopened = none;
  read = λ start n. some (take n (drop start c));
}

sees : (c : Bytes) → Sees c (poll c)
sees c = record { size = refl; reads = λ start n. refl }

abbrev polls : List Poll
polls = poll (1 ∷ 2 ∷ 3 ∷ []) ∷ poll (1 ∷ 2 ∷ 3 ∷ 4 ∷ []) ∷ []

plain : text_eq no_grep.pattern [] ≡ true
unfolding text_eq
plain = refl

grows : Growing (1 ∷ 2 ∷ 3 ∷ []) polls
grows = ([], (sees (1 ∷ 2 ∷ 3 ∷ []), (4 ∷ [], (sees (1 ∷ 2 ∷ 3 ∷ 4 ∷ []), tt))))

run-Contiguous_example :
    Contiguous no_grep (1 ∷ 2 ∷ 3 ∷ []) (final_content (1 ∷ 2 ∷ 3 ∷ []) polls grows) polls 1
run-Contiguous_example = run-Contiguous no_grep (1 ∷ 2 ∷ 3 ∷ []) polls 1 plain grows (omega arith)

run_caught_up_example :
    ((run no_grep (poll (1 ∷ 2 ∷ 3 ∷ []) ∷ []) 1).0 ≡ 3)
    × (content_of (run no_grep (poll (1 ∷ 2 ∷ 3 ∷ []) ∷ []) 1).1 ≡ 2 ∷ 3 ∷ [])
run_caught_up_example =
    run_caught_up no_grep (1 ∷ 2 ∷ 3 ∷ []) (poll (1 ∷ 2 ∷ 3 ∷ []) ∷ []) 1 plain
      (sees (1 ∷ 2 ∷ 3 ∷ []), tt) (omega arith) (omega arith)
