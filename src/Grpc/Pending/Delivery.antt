-- ===== src/Grpc/Pending/Delivery.antt =====
-- An answer does not panic, and touches no other request.
use aerodocs.Channel.{Chan, try_send-cases}
use aerodocs.Grpc.Key.{make_key}
use aerodocs.Grpc.Elsewhere.{Elsewhere, assign-Elsewhere}
use aerodocs.Grpc.Pending.{PendingRequests, send_to, deliver}
use aerodocs.Base.{
  ◌≡◌, refl, inl, inr, Bool, true, false, Option, none, some, [], ◌∷◌, ◌++◌, Bytes, lookup, assign,
  Entries, assign-Entries, lookup-Entries,
}

-- Nothing closes a channel of the pending requests.
abbrev pub IsOpen {ℓ} : {M : Type ℓ} → Bytes → Chan M → Type 0
IsOpen key ch = ch.closed ≡ false

module _ {ℓ} {M : Type ℓ} (key : Bytes) (msg : M) (p : PendingRequests M) where
  abbrev pub Delivered : Option (PendingRequests M × Bool) → Type ℓ
  Delivered result =
      (p' : PendingRequests M) × ((sent : Bool) × ((result ≡ some (p', sent))
          × (Entries IsOpen p'.channels × Elsewhere key p.channels p'.channels)))

  assigned :
      (ch : Chan M) (sent : Bool)
      → Entries IsOpen p.channels
      → ch.closed ≡ false
      → Delivered (some (record { channels = assign key ch p.channels }, sent))
  assigned ch sent v live = (
    record { channels = assign key ch p.channels },
    (
      sent,
      (refl, (assign-Entries IsOpen key ch p.channels live v, assign-Elsewhere key ch p.channels)),
    ),
  )

  send_to-Delivered :
      (o : Option (Chan M))
      → Entries IsOpen p.channels
      → lookup key p.channels ≡ o
      → Delivered (send_to key o msg p)
  unfolding send_to
  send_to-Delivered none v e = (p, (false, (refl, (v, λ j other. refl))))
  send_to-Delivered (some ch) v e =
      let live = lookup-Entries IsOpen key p.channels ch v e in
      elim (try_send-cases ch msg live) [
        | inl (room, tried) ↦
            let (p', (sent, (e', rest))) =
              assigned (record ch { buffer = ch.buffer ++ msg ∷ [] }) true v live in
            (p', (sent, (rw tried e', rest)))
        | inr tried ↦
            let (p', (sent, (e', rest))) = assigned ch false v live in
            (p', (sent, (rw tried e', rest)))
      ]

pub deliver-Delivered {ℓ} :
    {M : Type ℓ} (server request : Bytes) (msg : M) (p : PendingRequests M)
    → Entries IsOpen p.channels
    → Delivered (make_key server request) msg p (deliver server request msg p)
unfolding deliver
deliver-Delivered server request msg p v =
    send_to-Delivered (make_key server request) msg p (lookup (make_key server request) p.channels)
      v refl
