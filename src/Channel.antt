-- ===== src/Channel.antt =====
-- Go's buffered channels, as far as the hub uses them: a send that gives up when the buffer is full
-- (`select` with `default`), `close`, and a receive by the one reader. `none` is a panic.
use aerodocs.Base.{
  ℕ, ◌≤◌, ◌<◌, ◌⊎◌, inl, inr, Bool-cases, ◌≡◌, refl, ap, Bool, true, false, Option, none, some,
  List, [], ◌∷◌, ◌++◌, arith, ltb, if◌then◌else◌, length,
}

pub record Chan {ℓ} (A : Type ℓ) : Type ℓ where
  pub buffer : List A
  pub cap : ℕ
  pub closed : Bool

module _ {ℓ} {A : Type ℓ} where
  unfoldable pub make_chan : ℕ → Chan A
  make_chan n = record { buffer = []; cap = n; closed = false }

  -- `select { case ch <- a: return true; default: return false }`.
  unfoldable pub try_send : Chan A → A → Option (Chan A × Bool)
  try_send ch a =
      if ch.closed
      then none
      else if ltb (length ch.buffer) ch.cap
      then some (record ch { buffer = ch.buffer ++ a ∷ [] }, true)
      else some (ch, false)

  unfoldable pub close : Chan A → Option (Chan A)
  close ch = if ch.closed then none else some (record ch { closed = true })

  take_head : Chan A → List A → Chan A × Option A
  take_head ch [] = (ch, none)
  take_head ch (a ∷ rest) = (record ch { buffer = rest }, some a)

  -- A send on an open channel.
  pub try_send-cases :
      (ch : Chan A) (a : A)
      → ch.closed ≡ false
      → ((length ch.buffer < ch.cap)
          × (try_send ch a ≡ some (record ch { buffer = ch.buffer ++ a ∷ [] }, true)))
        ⊎ (try_send ch a ≡ some (ch, false))
  unfolding try_send
  try_send-cases ch a live = elim (Bool-cases (ltb (length ch.buffer) ch.cap)) [
    | inl room ↦ inl (ground (arith, room), ground (arith, live, room))
    | inr full ↦ inr (ground (arith, live, full))
  ]

  -- `<-ch`; no value if the reader has to wait, or if the channel is closed and empty.
  unfoldable pub receive : Chan A → Chan A × Option A
  unfolding take_head
  receive ch = take_head ch ch.buffer

  take_head-keeps :
      (ch : Chan A) (xs : List A)
      → ch.buffer ≡ xs
      → ((take_head ch xs).0.closed ≡ ch.closed)
        × ((take_head ch xs).0.cap ≡ ch.cap)
        × (length (take_head ch xs).0.buffer ≤ length ch.buffer)
  unfolding take_head
  take_head-keeps ch [] e = (refl, refl, omega arith)
  take_head-keeps ch (x ∷ xs) e = (refl, refl, omega (arith, ap length e))

  pub receive-closed : (ch : Chan A) → (receive ch).0.closed ≡ ch.closed
  unfolding receive
  receive-closed ch = (take_head-keeps ch ch.buffer refl).0

  pub receive-cap : (ch : Chan A) → (receive ch).0.cap ≡ ch.cap
  unfolding receive
  receive-cap ch = (take_head-keeps ch ch.buffer refl).1

  pub length-receive-le : (ch : Chan A) → length (receive ch).0.buffer ≤ length ch.buffer
  unfolding receive
  length-receive-le ch = (take_head-keeps ch ch.buffer refl).2
