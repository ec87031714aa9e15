-- ===== src/Grpc/Pending/Laws.antt =====
-- A request gets the first answer of its own server, and no other.
use aerodocs.Channel.{Chan}
use aerodocs.Grpc.Key.{colon, make_key, make_key_apart}
use aerodocs.Grpc.Pending.{PendingRequests, register, send_to, deliver, remove, answer}
use aerodocs.Base.{
  ◌≡◌, refl, ◌≢◌, Bool, true, false, Option, none, some, [], ◌∷◌, ◌++◌, arith, Bytes, text_eq,
  Lacks, lookup, assign, lookup-assign, lookup-delete_self, lookup-assign_self,
}

module _ {ℓ} {M : Type ℓ} where
  send_to-other :
      (key j : Bytes) (o : Option (Chan M)) (msg : M) (p p' : PendingRequests M) (sent : Bool)
      → text_eq key j ≡ false
      → send_to key o msg p ≡ some (p', sent)
      → lookup j p'.channels ≡ lookup j p.channels
  unfolding send_to
  send_to-other key j none msg p p' sent ne e = ground arith
  send_to-other key j (some ch) msg p p' sent ne e = ground (
    arith,
    lookup-assign key j (record ch { buffer = ch.buffer ++ msg ∷ [] }) p.channels,
    lookup-assign key j ch p.channels,
  )

  -- A message that arrives on the stream of one server leaves every request that waits for another
  -- server as it was, whatever request id the message names, if no server id holds a colon.
  pub deliver-isolated :
      (s s' r r' : Bytes) (msg : M) (p p' : PendingRequests M) (sent : Bool)
      → Lacks colon s
      → Lacks colon s'
      → s' ≢ s
      → deliver s' r' msg p ≡ some (p', sent)
      → lookup (make_key s r) p'.channels ≡ lookup (make_key s r) p.channels
  unfolding deliver
  deliver-isolated s s' r r' msg p p' sent h h' ne e =
      send_to-other (make_key s' r') (make_key s r) (lookup (make_key s' r') p.channels) msg p p'
        sent (make_key_apart s' s r' r h' h ne) e

  -- After `Register` the first message is accepted and is what the caller reads; a second one is
  -- refused and the caller still reads the first; after `Remove` a message is refused and none is
  -- read.
  pub deliver-register :
      (s r : Bytes) (first second : M) (p : PendingRequests M)
      → (q q' : PendingRequests M) × (deliver s r first (register s r p) ≡ some (q, true))
        × (answer s r q ≡ some first)
        × (deliver s r second q ≡ some (q', false))
        × (answer s r q' ≡ some first)
        × (deliver s r second (remove s r q) ≡ some (remove s r q, false))
        × (answer s r (remove s r q) ≡ none)
  unfolding deliver send_to register answer remove
  deliver-register s r first second p = (
    record { channels = assign key full (assign key empty p.channels) },
    record { channels = assign key full (assign key full (assign key empty p.channels)) },
    rw (lookup-assign_self key empty p.channels) refl,
    rw (lookup-assign_self key full (assign key empty p.channels)) refl,
    rw (lookup-assign_self key full (assign key empty p.channels)) refl,
    rw (lookup-assign_self key full (assign key full (assign key empty p.channels))) refl,
    rw (lookup-delete_self key (assign key full (assign key empty p.channels))) refl,
    rw (lookup-delete_self key (assign key full (assign key empty p.channels))) refl,
  )
    where
      key : Bytes
      key = make_key s r

      empty : Chan M
      empty = record { buffer = []; cap = 1; closed = false }

      full : Chan M
      full = record { buffer = first ∷ []; cap = 1; closed = false }
