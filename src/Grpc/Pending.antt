-- ===== src/Grpc/Pending.antt =====
-- hub/internal/grpcserver/pending.go: requests that wait for the agent's answer. `Deliver` looks the
-- channel up and sends on it in one step here.
pub mod Laws
pub mod Delivery
mod Tests
use aerodocs.Channel.{Chan, make_chan, try_send, receive}
use aerodocs.Grpc.Key.{make_key}
use aerodocs.Base.{
  ℕ, zero, suc, ◌+◌, ◌-◌, ◌*◌, ◌/◌, ◌%◌, ◌^◌, ◌≤◌, ◌<◌, ◌≡◌, refl, sym, ap, ◌∙◌, ◌≢◌, ◌↔◌, ◌⊎◌, inl,
  inr, Bool, true, false, not, ◌&&◌, ◌||◌, Option, none, some, List, [], ◌∷◌, ◌++◌, map, arith, ltb,
  leb, ◌==◌, ==_iff, if◌then◌else◌, Bool-cases, Option-cases, ◌>>=◌, length, length-append, take,
  drop, take-append-drop, length-take, length-drop, get_last?, keep, length-keep-le, any, All,
  All-append, All-keep, Bytes, text, text_eq, text_eq_refl, eq_of_text_eq, text_eq_iff, has_prefix,
  contains, has_prefix-append, eq_of_has_prefix, Lacks, split_unique, Table, lookup, delete, assign,
  Distinct, lookup-delete, lookup-assign, lookup-delete_self, lookup-assign_self, delete-Distinct,
  assign-Distinct, length-delete-le, length-delete-lt, length-assign-le, length-assign_old,
  delete_fresh, Entries, delete-Entries, assign-Entries, lookup-Entries,
}

pub record PendingRequests {ℓ} (M : Type ℓ) : Type ℓ where
  pub channels : Table (Chan M)

module _ {ℓ} {M : Type ℓ} where
  unfoldable pub new_pending_requests : PendingRequests M
  new_pending_requests = record { channels = [] }

  unfoldable pub register : Bytes → Bytes → PendingRequests M → PendingRequests M
  unfolding make_chan
  register server request p = record {
    channels = assign (make_key server request) (make_chan 1) p.channels;
  }

  send_to : Bytes → Option (Chan M) → M → PendingRequests M → Option (PendingRequests M × Bool)
  unfolding try_send
  send_to key none msg p = some (p, false)
  send_to key (some ch) msg p = do
    (ch', sent) ← try_send ch msg
    some (record { channels = assign key ch' p.channels }, sent)

  unfoldable pub deliver : Bytes → Bytes → M → PendingRequests M → Option (PendingRequests M × Bool)
  unfolding send_to
  deliver server request msg p =
      send_to (make_key server request) (lookup (make_key server request) p.channels) msg p

  unfoldable pub remove : Bytes → Bytes → PendingRequests M → PendingRequests M
  remove server request p = record { channels = delete (make_key server request) p.channels }

  -- The channel's reader, `<-ch` in `sendAgentRequestWithID`.
  unfoldable pub answer : Bytes → Bytes → PendingRequests M → Option M
  unfolding receive
  answer server request p = do ch ← lookup (make_key server request) p.channels; (receive ch).1
