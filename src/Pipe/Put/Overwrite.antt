-- ===== src/Pipe/Put/Overwrite.antt =====
-- `pipe_put` on a wrapped buffer whose gap was filled to the last byte: the two indices are equal,
-- and the next call takes the buffer for one that has not wrapped.
use luasys.Base.{
  ℕ, ◌+◌, ◌-◌, ◌%◌, ◌^◌, ◌≤◌, ◌<◌, ◌≡◌, false, Option, List, length, arith, ap, ◌∙◌, sym, subst,
  ltb, if◌then◌else◌,
}
use luasys.Pipe.{Buffer, Pipe, got, room, append, finish_put, put, get, take_front}
use luasys.Pipe.Ring.{IsMessage, Turned, At, copy_in-At}
use luasys.Pipe.Ring.Take.{take_front-At, front-message}
use luasys.Pipe.Put.{put-room, room-Turned, store-same}

get-got :
    (p : Pipe) (b : Buffer) (m : List ℕ)
    → p.heap p.rbuf ≡ b
    → 0 < p.nmsg
    → (take_front b).0 ≡ m
    → (get p).0 ≡ got m
unfolding get
get-got p b m e some_left h =
    let t : (take_front (p.heap p.rbuf)).0 ≡ m = ap (λ c. (take_front c).0) e ∙ h in
    ground (arith, ap got t)

module _ (b : Buffer) (m m' : List ℕ) (im : IsMessage m) (im' : IsMessage m') where
  -- The second message stands where the oldest one stood.
  overwritten :
      0 < b.end
      → b.end + length m ≡ b.begin
      → b.begin + length m' ≤ b.len
      → b.len < 2 ^ 31
      → (take_front (append (append b m) m')).0 ≡ m'
  unfolding append
  overwritten pos exact fits small =
      let e : (b.end + length m) % 2 ^ 32 ≡ b.begin = omega arith in
      let c : Buffer = append (append b m) m' in
      let at : At c.mem c.begin m' = rw e (copy_in-At (append b m).mem b.begin m') in
      ap (λ r. r.0) (take_front-At c c.begin m' (front-message c m' im' at) im' at (omega arith))

  -- The filled buffer is not taken for a wrapped one.
  room-filled :
      b.end + length m ≡ b.begin
      → b.begin + length m' ≤ b.len
      → b.len < 2 ^ 31
      → length m' ≤ room (append b m)
  unfolding append
  room-filled exact fits small =
      let e : (b.end + length m) % 2 ^ 32 ≡ b.begin = omega arith in
      let r : (2 ^ 32 + b.len - b.begin) % 2 ^ 32 ≡ b.len - b.begin = omega arith in
      let w : ltb b.begin b.begin ≡ false = ground arith in
      let all : room (append b m) ≡ b.len - b.begin =
        (λ i. (2 ^ 32 + (if ltb (e i) b.begin then b.begin else b.len) - e i) % 2 ^ 32)
        ∙ (λ i. (2 ^ 32 + (if w i then b.begin else b.len) - b.begin) % 2 ^ 32)
        ∙ r in
      subst (λ k. length m' ≤ k) (sym all) (omega arith)

-- Into a wrapped buffer go a message that fills its gap to the last byte and a second one, which
-- fits behind the place where the oldest message begins. The next `pipe_get` returns the second
-- message: the unread messages in front of it are lost.
pub put_overwrites :
    (f f' : Option ℕ) (m m' : List ℕ) (p : Pipe) (xs ys : List (List ℕ)) (turn : ℕ)
    → IsMessage m
    → IsMessage m'
    → p.rbuf ≡ p.wbuf
    → Turned (p.heap p.wbuf) xs ys turn
    → length m ≡ room (p.heap p.wbuf)
    → (p.heap p.wbuf).begin + length m' ≤ (p.heap p.wbuf).len
    → p.nmsg < 2 ^ 31
    → (get (put f' m' (put f m p).1).1).0 ≡ got m'
put_overwrites f f' m m' p xs ys turn im im' same t exact fits few =
    let b : Buffer = p.heap p.wbuf in
    let behind = t.behind in
    let r = room-Turned b xs ys turn t in
    let p1 : Pipe = (finish_put p.wbuf b m p).1 in
    let p2 : Pipe = (finish_put p1.wbuf (p1.heap p1.wbuf) m' p1).1 in
    let e1 : p1.heap p1.wbuf ≡ append b m = store-same p.heap p.wbuf (append b m) in
    let filled : b.end + length m ≡ b.begin = omega arith in
    let le : length m' ≤ room (p1.heap p1.wbuf) =
      subst (λ c. length m' ≤ room c) (sym e1) (room-filled b m m' im im' filled fits t.small) in
    let e2 : p2.heap p2.rbuf ≡ append (append b m) m' =
      ap p2.heap same
      ∙ store-same p1.heap p1.wbuf (append (p1.heap p1.wbuf) m')
      ∙ ap (λ c. append c m') e1 in
    (λ i. (get (put f' m' (put-room f m p (omega arith) i).1).1).0)
    ∙ (λ i. (get (put-room f' m' p1 le i).1).0)
    ∙ get-got p2 (append (append b m) m') m' e2 (omega arith)
        (overwritten b m m' im im' t.some_newer filled fits t.small)
