-- ===== src/Grpc/LogSessions/Laws.antt =====
-- No operation on the log sessions panics, and no channel grows past its buffer.
use aerodocs.Channel.{Chan, make_chan, receive, receive-closed, receive-cap, length-receive-le}
use aerodocs.Grpc.Key.{make_key}
use aerodocs.Grpc.LogSessions.{
  LogSessions, register, deliver, drain_overflow, remove, read, send_to, remove_at, read_at,
  count_at,
}
use aerodocs.Base.{
  ◌+◌, ◌%◌, ◌^◌, ◌≤◌, ◌≡◌, refl, ◌∙◌, inl, inr, Bool, false, Option, none, some, List, [], ◌∷◌,
  ◌++◌, arith, ltb, Bool-cases, ◌>>=◌, length, length-append, Bytes, lookup, delete, assign,
  Entries, delete-Entries, assign-Entries, lookup-Entries,
}

-- A registered channel is open and within its 64 places.
pub record IsOpen (key : Bytes) (ch : Chan Bytes) : Type 0 where
  pub is_open : ch.closed ≡ false
  pub cap : ch.cap ≡ 64
  pub bounded : length ch.buffer ≤ 64

abbrev pub IsValid : LogSessions → Type 0
IsValid ls = Entries IsOpen ls.channels

pub data Op : Type 0 where
  registers drains removes reads : Bytes → Bytes → Op
  delivers : Bytes → Bytes → Bytes → Op

-- The state after an operation; `none` is a panic.
pub step : LogSessions → Op → Option LogSessions
step ls (registers s r) = some (register s r ls)
step ls (drains s r) = some (drain_overflow s r ls).0
step ls (removes s r) = remove s r ls
step ls (reads s r) = some (read s r ls).0
step ls (delivers s r chunk) = do (ls', sent) ← deliver s r chunk ls; some ls'

-- A run of operations, as the mutex orders them.
pub run : LogSessions → List Op → Option LogSessions
run ls [] = some ls
run ls (o ∷ os) = do ls' ← step ls o; run ls' os

-- The operation does not panic, and its state is valid.
abbrev pub ValidAfter : Option LogSessions → Type 0
ValidAfter o = (ls : LogSessions) × (o ≡ some ls) × IsValid ls

abbrev sent_state : Option (LogSessions × Bool) → Option LogSessions
sent_state o = o >>= λ p. some p.0

send_to-IsValid :
    (key : Bytes) (o : Option (Chan Bytes)) (chunk : Bytes) (ls : LogSessions)
    → IsValid ls
    → lookup key ls.channels ≡ o
    → ValidAfter (sent_state (send_to key o chunk ls))
unfolding send_to
send_to-IsValid key none chunk ls v e = (ls, refl, v)
send_to-IsValid key (some ch) chunk ls v e =
    let open_ch = lookup-Entries IsOpen key ls.channels ch v e in
    let longer : Chan Bytes = record ch { buffer = ch.buffer ++ chunk ∷ [] } in
    elim (Bool-cases (ltb (length ch.buffer) ch.cap)) [
      | inl room ↦
          let fits : IsOpen key longer = record {
            is_open = open_ch.is_open;
            cap = open_ch.cap;
            bounded = ground (arith, length-append ch.buffer (chunk ∷ []), open_ch.cap);
          } in
          (
            record ls { channels = assign key longer ls.channels },
            rw (open_ch.is_open, room) refl,
            assign-Entries IsOpen key longer ls.channels fits v,
          )
      | inr full ↦ (
        record ls { overflow = assign key ((count_at key ls.overflow + 1) % 2 ^ 64) ls.overflow },
        rw (open_ch.is_open, full) refl,
        v,
      )
    ]

remove_at-IsValid :
    (key : Bytes) (o : Option (Chan Bytes)) (ls : LogSessions)
    → IsValid ls
    → lookup key ls.channels ≡ o
    → ValidAfter (remove_at key o ls)
unfolding remove_at
remove_at-IsValid key none ls v e = (ls, refl, v)
remove_at-IsValid key (some ch) ls v e = (
  record { channels = delete key ls.channels; overflow = delete key ls.overflow },
  rw (lookup-Entries IsOpen key ls.channels ch v e).is_open refl,
  delete-Entries IsOpen key ls.channels v,
)

receive-IsOpen : (key : Bytes) (ch : Chan Bytes) → IsOpen key ch → IsOpen key (receive ch).0
receive-IsOpen key ch v = record {
  is_open = receive-closed ch ∙ v.is_open;
  cap = receive-cap ch ∙ v.cap;
  bounded = omega (arith, length-receive-le ch, v.bounded);
}

read_at-IsValid :
    (key : Bytes) (o : Option (Chan Bytes)) (ls : LogSessions)
    → IsValid ls
    → lookup key ls.channels ≡ o
    → IsValid (read_at key o ls).0
unfolding read_at
read_at-IsValid key none ls v e = v
read_at-IsValid key (some ch) ls v e =
    assign-Entries IsOpen key (receive ch).0 ls.channels
      (receive-IsOpen key ch (lookup-Entries IsOpen key ls.channels ch v e)) v

pub step-IsValid : (ls : LogSessions) (o : Op) → IsValid ls → ValidAfter (step ls o)
unfolding step register deliver drain_overflow remove read
step-IsValid ls (registers s r) v =
    let fresh : IsOpen (make_key s r) (make_chan 64) = record {
      is_open = refl;
      cap = refl;
      bounded = omega arith;
    } in
    (register s r ls, refl, assign-Entries IsOpen (make_key s r) (make_chan 64) ls.channels fresh v)
step-IsValid ls (drains s r) v = ((drain_overflow s r ls).0, refl, ground arith)
step-IsValid ls (removes s r) v = remove_at-IsValid (make_key s r) _ ls v refl
step-IsValid ls (reads s r) v = ((read s r ls).0, refl, read_at-IsValid (make_key s r) _ ls v refl)
step-IsValid ls (delivers s r chunk) v = send_to-IsValid (make_key s r) _ chunk ls v refl

-- Whatever the order of operations, none of them sends on or closes a closed channel, and each
-- channel holds at most 64 chunks.
pub run-IsValid :
    (ls : LogSessions) (os : List Op)
    → IsValid ls
    → (ls' : LogSessions) × (run ls os ≡ some ls') × IsValid ls'
unfolding run
run-IsValid ls [] v = (ls, refl, v)
run-IsValid ls (o ∷ os) v =
    let (ls', stepped, v') = step-IsValid ls o v in rw stepped (run-IsValid ls' os v')
