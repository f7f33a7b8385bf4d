-- ===== src/Pipe/Get.antt =====
-- `pipe_get` where the read buffer has a message.
use luasys.Base.{
  ℕ, ◌-◌, ◌<◌, ◌≡◌, refl, ◌≢◌, Bool, true, false, List, [], ◌∷◌, arith, ap, ◌∙◌, sym, subst, ltb,
  if◌then◌else◌, ◌&&◌, ◌↔◌,
}
use luasys.Pipe.{Buffer, Pipe, Getting, got, store, get, take_front}
use luasys.Pipe.Ring.{Holds}
use luasys.Pipe.Ring.Take.{Taken, take-Taken}
use luasys.Pipe.Put.{store-same, store-other}

abbrev is_empty : List (List ℕ) → Bool
is_empty [] = true
is_empty (m ∷ ms) = false

-- What `pipe_get` gives for the message, the flag and the buffer of `take_front`.
abbrev pub Returned : Pipe → List ℕ × Bool × Buffer → Getting × Pipe → Type 0
Returned p (m, drained, b) (r, p') =
    (r ≡ got m)
    × (p'.heap ≡ store p.heap p.rbuf b)
    × (p'.rbuf ≡ (if drained && ltb 1 p.nmsg then (p.heap p.rbuf).next else p.rbuf))
    × (p'.nmsg ≡ p.nmsg - 1)
    × (p'.wbuf ≡ p.wbuf)

get-Returned : (p : Pipe) → 0 < p.nmsg → Returned p (take_front (p.heap p.rbuf)) (get p)
unfolding get
get-Returned p some_left = ground arith

-- The message is returned, the read buffer holds the others, no other buffer has changed, and the
-- next buffer is read when this one is empty and messages are left in the pipe.
abbrev pub GetHere : List ℕ → Pipe → List (List ℕ) → Getting × Pipe → Type 0
GetHere m p ms (r, p') =
    (r ≡ got m)
    × Holds (p'.heap p.rbuf) ms
    × ((q : ℕ) → q ≢ p.rbuf → p'.heap q ≡ p.heap q)
    × (p'.rbuf ≡ (if is_empty ms && ltb 1 p.nmsg then (p.heap p.rbuf).next else p.rbuf))
    × (p'.nmsg ≡ p.nmsg - 1)
    × (p'.wbuf ≡ p.wbuf)

drained_lem : (ms : List (List ℕ)) (d : Bool) → (d ≡ true) ↔ (ms ≡ []) → d ≡ is_empty ms
drained_lem [] d h = h.1 refl
drained_lem (m ∷ ms) true h = absurd (let e = h.0 refl in cc)
drained_lem (m ∷ ms) false h = refl

Returned-GetHere :
    (p : Pipe) (m : List ℕ) (ms : List (List ℕ)) (t : List ℕ × Bool × Buffer) (r : Getting × Pipe)
    → Taken m ms t
    → Returned p t r
    → GetHere m p ms r
Returned-GetHere p m ms (m', d, b) (r, p') (em, holds, dr) (er, eh, erb, en, ew) = (
  er ∙ ap got em,
  subst (λ c. Holds c ms) (sym (ap (λ h. h p.rbuf) eh ∙ store-same p.heap p.rbuf b)) holds,
  λ q ne. ap (λ h. h q) eh ∙ store-other p.heap p.rbuf b q ne,
  erb ∙ ap (λ c. if c && ltb 1 p.nmsg then (p.heap p.rbuf).next else p.rbuf) (drained_lem ms d dr),
  en,
  ew,
)

-- `pipe_get` on a pipe whose read buffer holds messages returns the oldest of them at once, leaves
-- the others there in their order and the other buffers as they are, takes it off the count, and
-- goes on to the next buffer exactly when it was the last one of its buffer and not of the pipe.
pub get_here :
    (p : Pipe) (m : List ℕ) (ms : List (List ℕ))
    → Holds (p.heap p.rbuf) (m ∷ ms)
    → 0 < p.nmsg
    → GetHere m p ms (get p)
get_here p m ms h some_left =
    Returned-GetHere p m ms (take_front (p.heap p.rbuf)) (get p) (take-Taken (p.heap p.rbuf) m ms h)
      (get-Returned p some_left)
