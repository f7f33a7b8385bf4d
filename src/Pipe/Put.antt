-- ===== src/Pipe/Put.antt =====
-- `pipe_put` where the message goes to the buffer that is being written.
pub mod Overwrite
use luasys.Base.{
  ℕ, ◌+◌, ◌-◌, ◌*◌, ◌%◌, ◌^◌, ◌≤◌, ◌<◌, ◌≡◌, refl, ◌≢◌, ◌⊎◌, inl, inr, Bool, true, false, Option,
  List, [], ◌∷◌, ◌++◌, length, arith, ap, ◌∙◌, sym, subst, ltb, ltb→lt, ◌==◌, if◌then◌else◌,
  Bool-cases, not, ◌&&◌, append_assoc, ==_iff,
}
use native.Mathlib.Decide.{ℕ_discrete}
use luasys.Pipe.{
  Buffer, Pipe, Putting, put_done, wrapped, room, wrap, append, store, finish_put, put,
}
use luasys.Pipe.Ring.{IsMessage, Laid-le, Straight, Turned, Holds, straight, turned}
use luasys.Pipe.Ring.Append.{append-Straight, append-Turned, append-wrap}

-- The message fits behind the last one, or in front of the first one.
abbrev pub HasPlace : Buffer → List ℕ → Type 0
HasPlace b m = (length m ≤ room b) ⊎ ((wrapped b ≡ false) × (length m < b.begin))

-- It would fill the gap before the oldest message of a wrapped buffer to the last byte.
abbrev pub IsExact : Buffer → List ℕ → Type 0
IsExact b m = (wrapped b ≡ true) × (length m ≡ room b)

wrapped-Straight : (b : Buffer) (ms : List (List ℕ)) → Straight b ms → wrapped b ≡ false
wrapped-Straight b ms s = let le = Laid-le ms b.mem b.begin b.end s.laid in ground arith

wrapped-Turned :
    (b : Buffer) (xs ys : List (List ℕ)) (turn : ℕ) → Turned b xs ys turn → wrapped b ≡ true
wrapped-Turned b xs ys turn t = let behind = t.behind in ground arith

room-Straight : (b : Buffer) (ms : List (List ℕ)) → Straight b ms → room b ≡ b.len - b.end
room-Straight b ms s =
    let small = s.small in
    let inside = s.inside in
    let e : (2 ^ 32 + b.len - b.end) % 2 ^ 32 ≡ b.len - b.end = omega arith in
    ap (λ w. (2 ^ 32 + (if w then b.begin else b.len) - b.end) % 2 ^ 32) (wrapped-Straight b ms s)
    ∙ e

pub room-Turned :
    (b : Buffer) (xs ys : List (List ℕ)) (turn : ℕ) → Turned b xs ys turn → room b ≡ b.begin - b.end
room-Turned b xs ys turn t =
    let small = t.small in
    let behind = t.behind in
    let last = t.not_last in
    let e : (2 ^ 32 + b.begin - b.end) % 2 ^ 32 ≡ b.begin - b.end = omega arith in
    ap (λ w. (2 ^ 32 + (if w then b.begin else b.len) - b.end) % 2 ^ 32)
      (wrapped-Turned b xs ys turn t)
    ∙ e

module _ (b : Buffer) (m : List ℕ) (im : IsMessage m) where
  append-Holds :
      (ms : List (List ℕ))
      → Holds b ms
      → length m ≤ room b
      → (IsExact b m → ⊥)
      → Holds (append b m) (ms ++ m ∷ [])
  append-Holds ms (straight s) le _ =
      let inside = s.inside in
      let fits : length m ≤ b.len - b.end = subst (λ r. length m ≤ r) (room-Straight b ms s) le in
      straight (append-Straight b m im ms s (omega arith))
  append-Holds ms (turned xs ys turn e t) le ne =
      let behind = t.behind in
      let r : room b ≡ b.begin - b.end = room-Turned b xs ys turn t in
      let fits : length m ≤ b.begin - b.end = subst (λ r. length m ≤ r) r le in
      let other : length m ≢ b.begin - b.end = λ h. ne (wrapped-Turned b xs ys turn t, h ∙ sym r) in
      turned xs (ys ++ m ∷ []) turn (ap (λ l. l ++ m ∷ []) e ∙ append_assoc xs ys (m ∷ []))
        (append-Turned b m im xs ys turn t (omega arith))

  wrap-Holds :
      (ms : List (List ℕ))
      → Holds b ms
      → wrapped b ≡ false
      → length m < b.begin
      → Holds (append (wrap b) m) (ms ++ m ∷ [])
  wrap-Holds ms (straight s) w lt = turned ms (m ∷ []) b.end refl (append-wrap b m im ms s lt)
  wrap-Holds ms (turned xs ys turn e t) w lt = let w' = wrapped-Turned b xs ys turn t in absurd (cc)

module _ (fresh : Option ℕ) (m : List ℕ) (p : Pipe) where
  pub put-room :
      length m ≤ room (p.heap p.wbuf) → put fresh m p ≡ finish_put p.wbuf (p.heap p.wbuf) m p
  unfolding put
  put-room le = ground arith

  put-wrap :
      room (p.heap p.wbuf) < length m
      → wrapped (p.heap p.wbuf) ≡ false
      → length m < (p.heap p.wbuf).begin
      → put fresh m p ≡ finish_put p.wbuf (wrap (p.heap p.wbuf)) m p
  unfolding put
  put-wrap lt w fits = ground arith

pub store-same : (h : ℕ → Buffer) (a : ℕ) (b : Buffer) → store h a b a ≡ b
store-same h a b = ground arith

pub store-other : (h : ℕ → Buffer) (a : ℕ) (b : Buffer) (q : ℕ) → q ≢ a → store h a b q ≡ h q
store-other h a b q ne = ground arith

-- The call has returned, the write buffer holds the message last, the other buffers are unchanged,
-- and the message is counted.
abbrev pub PutHere : List ℕ → Pipe → List (List ℕ) → Putting × Pipe → Type 0
PutHere m p ms (r, p') =
    (r ≡ put_done)
    × (p'.wbuf ≡ p.wbuf)
    × Holds (p'.heap p.wbuf) (ms ++ m ∷ [])
    × ((q : ℕ) → q ≢ p.wbuf → p'.heap q ≡ p.heap q)
    × (p'.nmsg ≡ (p.nmsg + 1) % 2 ^ 32)

finish_put-PutHere :
    (pb : Buffer) (m : List ℕ) (p : Pipe) (ms : List (List ℕ))
    → Holds (append pb m) (ms ++ m ∷ [])
    → PutHere m p ms (finish_put p.wbuf pb m p)
finish_put-PutHere pb m p ms h = (
  refl,
  refl,
  subst (λ b. Holds b (ms ++ m ∷ [])) (sym (store-same p.heap p.wbuf (append pb m))) h,
  store-other p.heap p.wbuf (append pb m),
  refl,
)

-- A message that has a place in the write buffer is stored behind the messages that the buffer
-- holds, unless it fills the gap of a wrapped buffer to the last byte. `pipe_put` returns at once,
-- changes no other buffer, and allocates none.
pub put_here :
    (fresh : Option ℕ) (m : List ℕ) (p : Pipe) (ms : List (List ℕ))
    → Holds (p.heap p.wbuf) ms
    → IsMessage m
    → HasPlace (p.heap p.wbuf) m
    → (IsExact (p.heap p.wbuf) m → ⊥)
    → PutHere m p ms (put fresh m p)
put_here fresh m p ms h im (inl le) ne =
    subst (PutHere m p ms) (sym (put-room fresh m p le))
      (finish_put-PutHere (p.heap p.wbuf) m p ms (append-Holds (p.heap p.wbuf) m im ms h le ne))
put_here fresh m p ms h im (inr (w, lt)) ne =
    elim (Bool-cases (ltb (room (p.heap p.wbuf)) (length m))) [
      | inl more ↦ subst (PutHere m p ms) (sym (put-wrap fresh m p (ltb→lt _ _ more) w lt)) (
          finish_put-PutHere (wrap (p.heap p.wbuf)) m p ms
            (wrap-Holds (p.heap p.wbuf) m im ms h w lt))
      | inr less ↦
          let le : length m ≤ room (p.heap p.wbuf) = ground arith in
          subst (PutHere m p ms) (sym (put-room fresh m p le)) (
            finish_put-PutHere (p.heap p.wbuf) m p ms
              (append-Holds (p.heap p.wbuf) m im ms h le ne))
    ]
