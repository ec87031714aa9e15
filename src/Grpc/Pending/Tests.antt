-- ===== src/Grpc/Pending/Tests.antt =====
-- Runs of the pending requests.
use aerodocs.Grpc.Key.{make_key}
use aerodocs.Grpc.Pending.{PendingRequests, new_pending_requests, register, deliver}
use aerodocs.Grpc.Pending.Laws.{deliver-isolated}
use aerodocs.Base.{ℕ, ◌≡◌, refl, false, some, arith, text, text_eq, ne_of_text_eq, lookup, assign}

abbrev waiting : PendingRequests ℕ
unfolding register new_pending_requests make_key assign
waiting = register (text "a") (text "1") new_pending_requests

wrong_server : deliver (text "b") (text "1") 7 waiting ≡ some (waiting, false)
unfolding waiting deliver lookup text_eq
wrong_server = refl

deliver-isolated_example :
    lookup (make_key (text "a") (text "1")) waiting.channels
    ≡ lookup (make_key (text "a") (text "1")) waiting.channels
unfolding text_eq
deliver-isolated_example =
    deliver-isolated (text "a") (text "b") (text "1") (text "1") 7 waiting waiting false
      (omega arith) (omega arith) (ne_of_text_eq _ _ refl) wrong_server
