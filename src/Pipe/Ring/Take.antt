-- ===== src/Pipe/Ring/Take.antt =====
-- What `pipe_get` does to the ring buffer that it reads from.
use luasys.Base.{
  ℕ, ◌+◌, ◌%◌, ◌^◌, ◌≤◌, ◌<◌, ◌≡◌, refl, ◌≢◌, Bool, true, List, [], ◌∷◌, ◌++◌, length, arith, ap,
  ◌∙◌, sym, subst, ◌==◌, ◌↔◌, ==_iff, if◌then◌else◌,
}
use native.Mathlib.Decide.{ℕ_discrete}
use luasys.Pipe.{Memory, copy_out, short_at, Buffer, front, take_front}
use luasys.Pipe.Ring.{
  IsMessage, At, Laid, Laid-le, copy_out-At, header_lem, Straight, Turned, Holds, straight, turned,
}

-- The indices after a message that ended at `p` was taken.
abbrev advanced : Buffer → ℕ → Buffer
advanced b p =
    if p == b.end
    then record b { begin = 0; end = 0 }
    else (if p == b.len then record b { begin = 0 } else record b { begin = p })

abbrev taken : Buffer → ℕ → ℕ → List ℕ × Bool × Buffer
taken b f n = (copy_out b.mem f n, (f + n) % 2 ^ 32 == b.end, advanced b ((f + n) % 2 ^ 32))

take_front_lem : (b : Buffer) → take_front b ≡ taken b (front b) (short_at b.mem (front b))
unfolding take_front
take_front_lem b = refl

-- With a message at `f`, the place where the buffer is read.
pub take_front-At :
    (b : Buffer) (f : ℕ) (m : List ℕ)
    → front b ≡ f
    → IsMessage m
    → At b.mem f m
    → f + length m < 2 ^ 32
    → take_front b ≡ (m, f + length m == b.end, advanced b (f + length m))
take_front-At b f m e im at small =
    let w : (f + length m) % 2 ^ 32 ≡ f + length m = omega arith in
    take_front_lem b
    ∙ ap (λ g. taken b g (short_at b.mem g)) e
    ∙ ap (taken b f) (header_lem m b.mem f im at)
    ∙ (λ i. (copy_out-At m b.mem f at i, w i == b.end, advanced b (w i)))

pub front-message : (b : Buffer) (m : List ℕ) → IsMessage m → At b.mem b.begin m → front b ≡ b.begin
unfolding front
front-message b m im at =
    let h = header_lem m b.mem b.begin im at in let two = im.has_header in ground arith

front-mark : (b : Buffer) → b.mem b.begin ≡ 0 → b.mem (b.begin + 1) ≡ 0 → front b ≡ 0
unfolding front short_at
front-mark b lo hi = ground arith

-- The oldest message is returned, the buffer holds the others, and it is found to be drained if
-- there are none.
abbrev pub Taken : List ℕ → List (List ℕ) → List ℕ × Bool × Buffer → Type 0
Taken m ms (m', drained, b') = (m' ≡ m) × Holds b' ms × ((drained ≡ true) ↔ (ms ≡ []))

module _ (b : Buffer) (p : ℕ) where
  advanced-end : p ≡ b.end → advanced b p ≡ record b { begin = 0; end = 0 }
  advanced-end h = ground arith

  advanced-len : p ≢ b.end → p ≡ b.len → advanced b p ≡ record b { begin = 0 }
  advanced-len h k = ground arith

  advanced-mid : p ≢ b.end → p ≢ b.len → advanced b p ≡ record b { begin = p }
  advanced-mid h k = ground arith

  still_some : (m : List ℕ) (ms : List (List ℕ)) → p ≢ b.end → ((p == b.end) ≡ true) ↔ (m ∷ ms ≡ [])
  still_some m ms ne = (λ h. absurd (ne ((==_iff p b.end).0 h)), λ h. cc)

advanced-Straight :
    (b : Buffer) (m : List ℕ) (ms : List (List ℕ)) (p : ℕ)
    → Laid b.mem p b.end ms
    → 0 < p
    → b.end ≤ b.len
    → b.len < 2 ^ 31
    → Taken m ms (m, p == b.end, advanced b p)
advanced-Straight b m [] p laid pos inside small = (
  refl,
  rw (advanced-end b p laid)
      (straight (record { laid = refl; inside = omega arith; reset = λ _. refl; small = small })),
  (λ _. refl, λ _. (==_iff p b.end).1 laid),
)
advanced-Straight b m (x ∷ ms) p laid pos inside small =
    let le = Laid-le ms b.mem (p + length x) b.end laid.2 in
    let two = laid.0.has_header in
    let ne : p ≢ b.end = omega arith in
    (
      refl,
      rw (advanced-mid b p ne (omega arith)) (
          straight (record {
            laid = laid;
            inside = inside;
            reset = λ h. absurd (omega arith);
            small = small;
          })),
      still_some b p x ms ne,
    )

take-Straight :
    (b : Buffer) (m : List ℕ) (ms : List (List ℕ)) → Straight b (m ∷ ms) → Taken m ms (take_front b)
take-Straight b m ms s =
    let (im, at, rest) = s.laid in
    let small = s.small in
    let inside = s.inside in
    let two = im.has_header in
    let le = Laid-le ms b.mem (b.begin + length m) b.end rest in
    rw (take_front-At b b.begin m (front-message b m im at) im at (omega arith))
      (advanced-Straight b m ms (b.begin + length m) rest (omega arith) inside small)

Laid-empty : (ms : List (List ℕ)) (mem : Memory) (p : ℕ) → Laid mem p p ms → ms ≡ []
Laid-empty [] mem p h = refl
Laid-empty (m ∷ ms) mem p h =
    let le = Laid-le ms mem (p + length m) p h.2 in let two = h.0.has_header in absurd (omega arith)

append-ne-nil : (xs ys : List (List ℕ)) → ys ≢ [] → xs ++ ys ≢ []
append-ne-nil [] ys h = h
append-ne-nil (x ∷ xs) ys h = λ e. cc

newer-ne-nil : (b : Buffer) (xs ys : List (List ℕ)) (turn : ℕ) → Turned b xs ys turn → ys ≢ []
newer-ne-nil b xs ys turn t e =
    let pos = t.some_newer in
    let none_left : 0 ≡ b.end = subst (Laid b.mem 0 b.end) e t.newer in absurd (omega arith)

-- The read index comes to the end of the buffer, and goes on from 0.
turn-Straight :
    (b : Buffer) (xs ys : List (List ℕ)) (turn : ℕ) (xs' : List (List ℕ))
    → Turned b xs ys turn
    → Laid b.mem b.len turn xs'
    → Straight (record b { begin = 0 }) (xs' ++ ys)
turn-Straight b xs ys turn xs' t rest =
    let pos = t.some_newer in
    let behind = t.behind in
    let last = t.not_last in
    let le = Laid-le xs' b.mem b.len turn rest in
    let end : turn ≡ b.len = omega (arith, t.inside) in
    let none_left : xs' ≡ [] =
      Laid-empty xs' b.mem b.len (subst (λ q. Laid b.mem b.len q xs') end rest) in
    record { laid = rw none_left t.newer; inside = omega arith; reset = λ _. refl; small = t.small }

older-Turned :
    (b : Buffer) (xs ys xs' : List (List ℕ)) (turn p : ℕ)
    → Turned b xs ys turn
    → Laid b.mem p turn xs'
    → b.begin ≤ p
    → p ≢ b.len
    → Turned (record b { begin = p }) xs' ys turn
older-Turned b xs ys xs' turn p t rest above ne =
    let behind = t.behind in
    let inside = t.inside in
    let le = Laid-le xs' b.mem p turn rest in
    record {
      older = rest;
      newer = t.newer;
      behind = omega arith;
      some_newer = t.some_newer;
      inside = t.inside;
      not_last = omega arith;
      mark_low = t.mark_low;
      mark_high = t.mark_high;
      small = t.small;
    }

advanced-older :
    (b : Buffer) (m : List ℕ) (xs ys xs' : List (List ℕ)) (turn p : ℕ)
    → Turned b xs ys turn
    → Laid b.mem p turn xs'
    → b.begin ≤ p
    → Taken m (xs' ++ ys) (m, p == b.end, advanced b p)
advanced-older b m xs ys xs' turn p t rest above =
    let behind = t.behind in
    let ne : p ≢ b.end = omega arith in
    (
      refl,
      elim (ℕ_discrete p b.len) [
        | yes last ↦ rw (advanced-len b p ne last) (
            straight
              (turn-Straight b xs ys turn xs' t (subst (λ q. Laid b.mem q turn xs') last rest)))
        | no more ↦
            rw (advanced-mid b p ne more)
              (turned xs' ys turn refl (older-Turned b xs ys xs' turn p t rest above more))
      ],
      (
        λ h. absurd (ne ((==_iff p b.end).0 h)),
        λ h. absurd (append-ne-nil xs' ys (newer-ne-nil b xs ys turn t) h),
      ),
    )

-- The oldest message stands behind the newer ones.
take-older :
    (b : Buffer) (m : List ℕ) (xs ys : List (List ℕ)) (turn : ℕ)
    → Turned b (m ∷ xs) ys turn
    → Taken m (xs ++ ys) (take_front b)
take-older b m xs ys turn t =
    let (im, at, rest) = t.older in
    let small = t.small in
    let inside = t.inside in
    let le = Laid-le xs b.mem (b.begin + length m) turn rest in
    rw (take_front-At b b.begin m (front-message b m im at) im at (omega arith))
      (advanced-older b m (m ∷ xs) ys xs turn (b.begin + length m) t rest (omega arith))

-- Only the mark is left behind the newer messages.
take-newer :
    (b : Buffer) (m : List ℕ) (ys : List (List ℕ)) (turn : ℕ)
    → Turned b [] (m ∷ ys) turn
    → Taken m ys (take_front b)
take-newer b m ys turn t =
    let e : b.begin ≡ turn = t.older in
    let (im, at, rest) = t.newer in
    let small = t.small in
    let behind = t.behind in
    let last = t.not_last in
    let two = im.has_header in
    let le = Laid-le ys b.mem (0 + length m) b.end rest in
    rw
      (take_front-At b 0 m
        (front-mark b (ap b.mem e ∙ t.mark_low) (ap (λ a. b.mem (a + 1)) e ∙ t.mark_high)) im at
        (omega arith))
      (advanced-Straight b m ys (0 + length m) rest (omega arith) (omega arith) small)

abbrev TakenFrom : List (List ℕ) → List ℕ × Bool × Buffer → Type 0
TakenFrom [] r = Unit
TakenFrom (m ∷ ms) r = Taken m ms r

take-Turned :
    (b : Buffer) (xs ys : List (List ℕ)) (turn : ℕ)
    → Turned b xs ys turn
    → TakenFrom (xs ++ ys) (take_front b)
take-Turned b [] [] turn t = tt
take-Turned b [] (y ∷ ys) turn t = take-newer b y ys turn t
take-Turned b (x ∷ xs) ys turn t = take-older b x xs ys turn t

-- `pipe_get` on a buffer that holds messages takes the oldest one out, leaves the others in their
-- order, and finds the buffer drained exactly when there are no others.
pub take-Taken :
    (b : Buffer) (m : List ℕ) (ms : List (List ℕ)) → Holds b (m ∷ ms) → Taken m ms (take_front b)
take-Taken b m ms (straight s) = take-Straight b m ms s
take-Taken b m ms (turned xs ys turn e t) =
    subst (λ l. TakenFrom l (take_front b)) (sym e) (take-Turned b xs ys turn t)
