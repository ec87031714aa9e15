-- ===== src/Grpc/LogSessions/Delivery.antt =====
-- A chunk that arrives does not panic, and touches no other stream.
use aerodocs.Channel.{Chan, try_send-cases}
use aerodocs.Grpc.Key.{make_key}
use aerodocs.Grpc.Elsewhere.{Elsewhere, assign-Elsewhere}
use aerodocs.Grpc.LogSessions.{LogSessions, count_at, bump, after_send, send_to, deliver}
use aerodocs.Grpc.LogSessions.Laws.{IsOpen, IsValid}
use aerodocs.Base.{
  ◌+◌, ◌%◌, ◌^◌, ◌≡◌, refl, inl, inr, Bool, true, false, Option, none, some, [], ◌∷◌, ◌++◌, arith,
  length-append, Bytes, lookup, assign, assign-Entries, lookup-Entries,
}

module _ (key : Bytes) (chunk : Bytes) (ls : LogSessions) where
  abbrev pub Delivered : Option (LogSessions × Bool) → Type 0
  Delivered result =
      (ls' : LogSessions) × ((sent : Bool) × ((result ≡ some (ls', sent))
          × (IsValid ls'
              × (Elsewhere key ls.channels ls'.channels × Elsewhere key ls.overflow ls'.overflow))))

  send_to-Delivered :
      (o : Option (Chan Bytes))
      → IsValid ls
      → lookup key ls.channels ≡ o
      → Delivered (send_to key o chunk ls)
  unfolding send_to after_send bump
  send_to-Delivered none v e = (ls, (false, (refl, (v, (λ j other. refl, λ j other. refl)))))
  send_to-Delivered (some ch) v e =
      let sound = lookup-Entries IsOpen key ls.channels ch v e in
      let live = sound.is_open in
      elim (try_send-cases ch chunk live) [
        | inl (room, tried) ↦
            let ch' : Chan Bytes = record ch { buffer = ch.buffer ++ chunk ∷ [] } in
            let sound' : IsOpen key ch' = record {
              is_open = live;
              cap = sound.cap;
              bounded = omega (arith, length-append ch.buffer (chunk ∷ []), room, sound.cap);
            } in
            (
              record ls { channels = assign key ch' ls.channels },
              (
                true,
                (
                  rw tried refl,
                  (
                    assign-Entries IsOpen key ch' ls.channels sound' v,
                    (assign-Elsewhere key ch' ls.channels, λ j other. refl),
                  ),
                ),
              ),
            )
        | inr tried ↦
            let n = (count_at key ls.overflow + 1) % 2 ^ 64 in
            (
              record ls { overflow = assign key n ls.overflow },
              (false, (rw tried refl, (v, (λ j other. refl, assign-Elsewhere key n ls.overflow)))),
            )
      ]

pub deliver-Delivered :
    (server request chunk : Bytes) (ls : LogSessions)
    → IsValid ls
    → Delivered (make_key server request) chunk ls (deliver server request chunk ls)
unfolding deliver
deliver-Delivered server request chunk ls v =
    send_to-Delivered (make_key server request) chunk ls
      (lookup (make_key server request) ls.channels) v refl
