-- ===== src/Timeout/Linked.antt =====
-- The events of a queue as a list, and what an assignment to one link does to it.
use luasys.Base.{
  some-inj, ℕ, ◌≡◌, ◌≢◌, refl, sym, ◌∙◌, subst, Option, none, some, List, [], ◌∷◌, ◌++◌, arith,
}
use luasys.TaskList.Ring.{NotIn, Distinct}
use luasys.Timeout.{Event, Timers, set_event, link_next, link_prev}

-- The first of a list, or what follows it; the last of it, or what stands before it
abbrev pub first : List ℕ → Option ℕ → Option ℕ
first [] n = n
first (x ∷ xs) n = some x

abbrev pub last : Option ℕ → List ℕ → Option ℕ
last p [] = p
last p (x ∷ xs) = last (some x) xs

-- The links of the events, between `p` before them and `n` after them
abbrev pub Linked : Timers → Option ℕ → List ℕ → Option ℕ → Type 0
Linked s p [] n = Unit
Linked s p (x ∷ xs) n =
    ((s.event x).prev ≡ p) × ((s.event x).next ≡ first xs n) × Linked s (some x) xs n

abbrev pub All : (ℕ → Type 0) → List ℕ → Type 0
All P [] = Unit
All P (x ∷ xs) = P x × All P xs

pub All-NotIn :
    (P : ℕ → Type 0) (a : ℕ) (xs : List ℕ) → NotIn a xs → ((x : ℕ) → x ≢ a → P x) → All P xs
All-NotIn P a [] h f = tt
All-NotIn P a (x ∷ xs) (ne, h) f = (f x (λ e. ne (sym e)), All-NotIn P a xs h f)

pub All_map : (P : ℕ → Type 0) (xs : List ℕ) → ((x : ℕ) → P x) → All P xs
All_map P [] f = tt
All_map P (x ∷ xs) f = (f x, All_map P xs f)

-- The links of these events are the same in both states.
abbrev pub SameLinks : Timers → Timers → ℕ → Type 0
SameLinks s s' x = ((s'.event x).prev ≡ (s.event x).prev) × ((s'.event x).next ≡ (s.event x).next)

pub Linked-frame :
    (s s' : Timers) (p n : Option ℕ) (xs : List ℕ)
    → All (SameLinks s s') xs
    → Linked s p xs n
    → Linked s' p xs n
Linked-frame s s' p n [] h l = tt
Linked-frame s s' p n (x ∷ xs) ((a, b), h) (c, d, l) =
    (a ∙ c, b ∙ d, Linked-frame s s' (some x) n xs h l)

pub first-append : (xs ys : List ℕ) (n : Option ℕ) → first (xs ++ ys) n ≡ first xs (first ys n)
first-append [] ys n = refl
first-append (x ∷ xs) ys n = refl

pub last-append : (p : Option ℕ) (xs ys : List ℕ) → last p (xs ++ ys) ≡ last (last p xs) ys
last-append p [] ys = refl
last-append p (x ∷ xs) ys = last-append (some x) xs ys

pub Linked-append :
    (s : Timers) (p n : Option ℕ) (xs ys : List ℕ)
    → Linked s p xs (first ys n)
    → Linked s (last p xs) ys n
    → Linked s p (xs ++ ys) n
Linked-append s p n [] ys a b = b
Linked-append s p n (x ∷ xs) ys (c, d, a) b =
    (c, d ∙ sym (first-append xs ys n), Linked-append s (some x) n xs ys a b)

pub Linked-split :
    (s : Timers) (p n : Option ℕ) (xs ys : List ℕ)
    → Linked s p (xs ++ ys) n
    → Linked s p xs (first ys n) × Linked s (last p xs) ys n
Linked-split s p n [] ys l = (tt, l)
Linked-split s p n (x ∷ xs) ys (c, d, l) =
    let (a, b) = Linked-split s (some x) n xs ys l in ((c, d ∙ first-append xs ys n, a), b)

last-other : (a x : ℕ) (y : ℕ) (ys : List ℕ) → last (some y) ys ≡ some a → NotIn x (y ∷ ys) → x ≢ a
last-other a x y [] e (ne, h) d = ne (d ∙ sym (some-inj e))
last-other a x y (z ∷ ys) e (ne, h) d = last-other a x z ys e h d

pub last-NotIn : (a : ℕ) (xs : List ℕ) → NotIn a xs → last none xs ≢ some a
last-NotIn a [] h e = cc
last-NotIn a (x ∷ xs) h e = last-other a a x xs e h refl

-- The assignment of `next` in the last event
pub relink_last :
    (s : Timers) (p n m : Option ℕ) (a x : ℕ) (xs : List ℕ)
    → last (some x) xs ≡ some a
    → Distinct (x ∷ xs)
    → Linked s p (x ∷ xs) n
    → Linked (set_event a (record (s.event a) { next = m }) s) p (x ∷ xs) m
relink_last s p n m a x [] e k (c, d, l) = let same = some-inj e in (ground arith, ground arith, tt)
relink_last s p n m a x (y ∷ ys) e (nx, k) (c, d, l) =
    let ne = last-other a x y ys e nx in
    (ground arith, ground arith, relink_last s (some x) n m a y ys e k l)

pub last-some : (x : ℕ) (xs : List ℕ) → (a : ℕ) × (last (some x) xs ≡ some a)
last-some x [] = (x, refl)
last-some x (y ∷ xs) = last-some y xs

-- The front of a queue, whose last link goes to `n`, and the rest of it, whose first goes to `p`
abbrev pub Front : Timers → ℕ → List ℕ → Option ℕ → Type 0
Front s q xs n = ((s.queue q).ev_head ≡ first xs n) × Linked s none xs n

abbrev pub Rest : Timers → ℕ → Option ℕ → List ℕ → Type 0
Rest s q p xs = ((s.queue q).ev_tail ≡ last p xs) × Linked s p xs none

pub link_next-Front :
    (s : Timers) (q : ℕ) (xs : List ℕ) (n m : Option ℕ)
    → Distinct xs
    → Front s q xs n
    → Front (link_next (last none xs) m q s) q xs m
link_next-Front s q [] n m k (h, l) = (ground arith, tt)
link_next-Front s q (x ∷ xs) n m k (h, l) =
    let (a, e) = last-some x xs in
    subst (λ o. Front (link_next o m q s) q (x ∷ xs) m) (sym e)
      (h, relink_last s none n m a x xs e k l)

pub link_prev-Rest :
    (s : Timers) (q : ℕ) (xs : List ℕ) (p o : Option ℕ)
    → Distinct xs
    → Rest s q p xs
    → Rest (link_prev (first xs none) o q s) q o xs
link_prev-Rest s q [] p o k (t, l) = (ground arith, tt)
link_prev-Rest s q (x ∷ xs) p o (nx, k) (t, u) =
    let (c, d, l) = u in
    let s1 = set_event x (record (s.event x) { prev = o }) s in
    (
      t,
      (
        ground arith,
        ground arith,
        Linked-frame s s1 (some x) none xs
            (All-NotIn (SameLinks s s1) x xs nx (λ y ne. (ground arith, ground arith))) l,
      ),
    )

abbrev pub IsOut : Option ℕ → List ℕ → Type 0
IsOut none xs = Unit
IsOut (some a) xs = NotIn a xs

pub link_next-Rest :
    (s : Timers) (q : ℕ) (xs : List ℕ) (a m p : Option ℕ)
    → IsOut a xs
    → Rest s q p xs
    → Rest (link_next a m q s) q p xs
link_next-Rest s q xs none m p h (t, l) = (
  ground arith,
  Linked-frame s (link_next none m q s) p none xs (All_map (SameLinks s s) xs (λ x. (refl, refl)))
      l,
)
link_next-Rest s q xs (some a) m p h (t, l) =
    let s1 = set_event a (record (s.event a) { next = m }) s in
    (
      t,
      Linked-frame s s1 p none xs
          (All-NotIn (SameLinks s s1) a xs h (λ y ne. (ground arith, ground arith))) l,
    )

pub link_prev-Front :
    (s : Timers) (q : ℕ) (xs : List ℕ) (a m n : Option ℕ)
    → IsOut a xs
    → Front s q xs n
    → Front (link_prev a m q s) q xs n
link_prev-Front s q xs none m n h (t, l) = (
  ground arith,
  Linked-frame s (link_prev none m q s) none n xs (All_map (SameLinks s s) xs (λ x. (refl, refl)))
      l,
)
link_prev-Front s q xs (some a) m n h (t, l) =
    let s1 = set_event a (record (s.event a) { prev = m }) s in
    (
      t,
      Linked-frame s s1 none n xs
          (All-NotIn (SameLinks s s1) a xs h (λ y ne. (ground arith, ground arith))) l,
    )

-- The same for a list of events with any ends, and for a link of an event that is not in it
pub link_prev-Linked :
    (s : Timers) (x : ℕ) (xs : List ℕ) (p o n : Option ℕ)
    → NotIn x xs
    → Linked s p (x ∷ xs) n
    → Linked (set_event x (record (s.event x) { prev = o }) s) o (x ∷ xs) n
link_prev-Linked s x xs p o n nx (c, d, l) =
    let s1 = set_event x (record (s.event x) { prev = o }) s in
    (
      ground arith,
      ground arith,
      Linked-frame s s1 (some x) n xs
          (All-NotIn (SameLinks s s1) x xs nx (λ y ne. (ground arith, ground arith))) l,
    )

pub Linked-other :
    (s : Timers) (a : ℕ) (e : Event) (xs : List ℕ) (p n : Option ℕ)
    → NotIn a xs
    → Linked s p xs n
    → Linked (set_event a e s) p xs n
Linked-other s a e xs p n h l =
    Linked-frame s (set_event a e s) p n xs
      (All-NotIn (SameLinks s (set_event a e s)) a xs h (λ x ne. (ground arith, ground arith))) l

pub link_next-Linked :
    (s : Timers) (q : ℕ) (a m : Option ℕ) (xs : List ℕ) (p n : Option ℕ)
    → IsOut a xs
    → Linked s p xs n
    → Linked (link_next a m q s) p xs n
link_next-Linked s q none m xs p n h l =
    Linked-frame s (link_next none m q s) p n xs (All_map (SameLinks s s) xs (λ x. (refl, refl))) l
link_next-Linked s q (some a) m xs p n h l =
    Linked-other s a (record (s.event a) { next = m }) xs p n h l
