-- ===== src/Timeout/Moving.antt =====
-- `timeout_del`, `timeout_add` and `timeout_reset` on the list of the events of a queue.
use luasys.Base.{ℕ, ◌≡◌, ◌≢◌, sym, ◌∙◌, Option, none, some, List, [], ◌∷◌, ◌++◌}
use luasys.TaskList.Ring.{NotIn, Distinct}
use luasys.Timeout.{Timers, link_next, link_prev}
use luasys.Timeout.Linked.{
  first, last, Linked, Linked-frame, Linked-append, Linked-split, first-append, last-append, All,
  All-NotIn, All_map, SameLinks, Front, Rest, IsOut, link_next-Front, link_prev-Rest,
  link_next-Rest, link_prev-Front,
}

-- Queue `q` has these events, in order.
pub record IsQueue (s : Timers) (q : ℕ) (xs : List ℕ) : Type 0 where
  pub head : (s.queue q).ev_head ≡ first xs none
  pub tail : (s.queue q).ev_tail ≡ last none xs
  pub linked : Linked s none xs none
  pub distinct : Distinct xs

pub Front-Rest-IsQueue :
    (s : Timers) (q : ℕ) (xs ys : List ℕ)
    → Distinct (xs ++ ys)
    → Front s q xs (first ys none)
    → Rest s q (last none xs) ys
    → IsQueue s q (xs ++ ys)
Front-Rest-IsQueue s q xs ys k (h, a) (t, b) = record {
  head = h ∙ sym (first-append xs ys none);
  tail = t ∙ sym (last-append none xs ys);
  linked = Linked-append s none none xs ys a b;
  distinct = k;
}

pub IsQueue-Front-Rest :
    (s : Timers) (q : ℕ) (xs ys : List ℕ)
    → IsQueue s q (xs ++ ys)
    → Front s q xs (first ys none) × Rest s q (last none xs) ys
IsQueue-Front-Rest s q xs ys k =
    let (a, b) = Linked-split s none none xs ys k.linked in
    ((k.head ∙ first-append xs ys none, a), (k.tail ∙ last-append none xs ys, b))

pub NotIn-append : (x : ℕ) (xs ys : List ℕ) → NotIn x xs → NotIn x ys → NotIn x (xs ++ ys)
NotIn-append x [] ys a b = b
NotIn-append x (y ∷ xs) ys (ne, a) b = (ne, NotIn-append x xs ys a b)

pub NotIn-split : (x : ℕ) (xs ys : List ℕ) → NotIn x (xs ++ ys) → NotIn x xs × NotIn x ys
NotIn-split x [] ys h = (tt, h)
NotIn-split x (y ∷ xs) ys (ne, h) = let (a, b) = NotIn-split x xs ys h in ((ne, a), b)

-- What the distinctness of two lists together says of each and of one against the other
pub Distinct-split :
    (xs ys : List ℕ) → Distinct (xs ++ ys) → Distinct xs × Distinct ys × All (λ x. NotIn x ys) xs
Distinct-split [] ys h = (tt, h, tt)
Distinct-split (x ∷ xs) ys (n, h) =
    let (a, b) = NotIn-split x xs ys n in
    let (c, d, e) = Distinct-split xs ys h in ((a, c), d, (b, e))

pub Distinct-append :
    (xs ys : List ℕ) → Distinct xs → Distinct ys → All (λ x. NotIn x ys) xs → Distinct (xs ++ ys)
Distinct-append [] ys h k a = k
Distinct-append (x ∷ xs) ys (n, h) k (m, a) =
    (NotIn-append x xs ys n m, Distinct-append xs ys h k a)

-- The last of the front is not in the rest, nor the first of the rest in the front.
last-IsOut :
    (p : ℕ) (xs ys : List ℕ) → NotIn p ys → All (λ x. NotIn x ys) xs → IsOut (last (some p) xs) ys
last-IsOut p [] ys h a = h
last-IsOut p (x ∷ xs) ys h (m, a) = last-IsOut x xs ys m a

pub last-none-IsOut : (xs ys : List ℕ) → All (λ x. NotIn x ys) xs → IsOut (last none xs) ys
last-none-IsOut [] ys a = tt
last-none-IsOut (x ∷ xs) ys (m, a) = last-IsOut x xs ys m a

pub head-NotIn : (y : ℕ) (xs ys : List ℕ) → All (λ x. NotIn x (y ∷ ys)) xs → NotIn y xs
head-NotIn y [] ys a = tt
head-NotIn y (x ∷ xs) ys ((ne, m), a) = ((λ e. ne (sym e)), head-NotIn y xs ys a)

pub first-IsOut : (xs ys : List ℕ) → All (λ x. NotIn x ys) xs → IsOut (first ys none) xs
first-IsOut xs [] a = tt
first-IsOut xs (y ∷ ys) a = head-NotIn y xs ys a

pub All_weaken :
    (y : ℕ) (xs ys : List ℕ) → All (λ x. NotIn x (y ∷ ys)) xs → All (λ x. NotIn x ys) xs
All_weaken y [] ys a = tt
All_weaken y (x ∷ xs) ys ((ne, m), a) = (m, All_weaken y xs ys a)

All-out : (y : ℕ) (xs : List ℕ) → NotIn y xs → All (λ x. NotIn x (y ∷ [])) xs
All-out y [] h = tt
All-out y (x ∷ xs) (ne, h) = (((λ e. ne (sym e)), tt), All-out y xs h)

pub middle-NotIn : (y : ℕ) (xs ys : List ℕ) → Distinct (xs ++ y ∷ ys) → NotIn y (xs ++ ys)
middle-NotIn y xs ys k =
    let (dx, (ny, dy), apart) = Distinct-split xs (y ∷ ys) k in
    NotIn-append y xs ys (head-NotIn y xs ys apart) ny

-- Front and rest of the events around `ev` are joined.
pub unlink-IsQueue :
    (s : Timers) (q ev : ℕ) (xs ys : List ℕ)
    → Distinct (xs ++ ev ∷ ys)
    → Front s q xs (some ev)
    → Rest s q (some ev) ys
    → let p = last none xs in
      let n = first ys none in IsQueue (link_prev n p q (link_next p n q s)) q (xs ++ ys)
unlink-IsQueue s q ev xs ys k f r =
    let (dx, (ny, dy), apart) = Distinct-split xs (ev ∷ ys) k in
    let apart1 = All_weaken ev xs ys apart in
    let p = last none xs in
    let n = first ys none in
    let s1 = link_next p n q s in
    Front-Rest-IsQueue (link_prev n p q s1) q xs ys (Distinct-append xs ys dx dy apart1)
      (link_prev-Front s1 q xs n p n (first-IsOut xs ys apart1)
        (link_next-Front s q xs (some ev) n dx f))
      (link_prev-Rest s1 q ys (some ev) p dy
        (link_next-Rest s q ys p n (some ev) (last-none-IsOut xs ys apart1) r))

-- The place of `ev` in the list says what its links are.
pub IsQueue-links :
    (s : Timers) (q ev : ℕ) (xs ys : List ℕ)
    → IsQueue s q (xs ++ ev ∷ ys)
    → Front s q xs (some ev)
      × ((s.event ev).prev ≡ last none xs)
      × ((s.event ev).next ≡ first ys none)
      × Rest s q (some ev) ys
IsQueue-links s q ev xs ys k =
    let (f, rest) = IsQueue-Front-Rest s q xs (ev ∷ ys) k in
    let (t, links) = rest in let (a, b, l) = links in (f, a, b, (t, l))

-- A change of other fields than the links
pub Front-frame :
    (s s' : Timers) (q : ℕ) (xs : List ℕ) (n : Option ℕ)
    → ((x : ℕ) → SameLinks s s' x)
    → (s'.queue q).ev_head ≡ (s.queue q).ev_head
    → Front s q xs n
    → Front s' q xs n
Front-frame s s' q xs n h e (a, l) =
    (e ∙ a, Linked-frame s s' none n xs (All_map (SameLinks s s') xs h) l)

pub Rest-frame :
    (s s' : Timers) (q : ℕ) (p : Option ℕ) (xs : List ℕ)
    → ((x : ℕ) → SameLinks s s' x)
    → (s'.queue q).ev_tail ≡ (s.queue q).ev_tail
    → Rest s q p xs
    → Rest s' q p xs
Rest-frame s s' q p xs h e (a, l) =
    (e ∙ a, Linked-frame s s' p none xs (All_map (SameLinks s s') xs h) l)

-- `ev` is appended: the last link, or the head, goes to it, and then the tail and its own links.
pub append-IsQueue :
    (s s' : Timers) (q ev : ℕ) (xs : List ℕ)
    → IsQueue s q xs
    → NotIn ev xs
    → let s1 = link_next (last none xs) (some ev) q s in
      (s'.queue q).ev_head ≡ (s1.queue q).ev_head
      → (s'.queue q).ev_tail ≡ some ev
      → ((x : ℕ) → x ≢ ev → SameLinks s1 s' x)
      → (s'.event ev).prev ≡ last none xs
      → (s'.event ev).next ≡ none
      → IsQueue s' q (xs ++ ev ∷ [])
append-IsQueue s s' q ev xs k out head tail same prev next =
    let s1 = link_next (last none xs) (some ev) q s in
    let (h, l) = link_next-Front s q xs none (some ev) k.distinct (k.head, k.linked) in
    Front-Rest-IsQueue s' q xs (ev ∷ [])
      (Distinct-append xs (ev ∷ []) k.distinct (tt, tt) (All-out ev xs out))
      (
        head ∙ h,
        Linked-frame s1 s' none (some ev) xs (All-NotIn (SameLinks s1 s') ev xs out same) l,
      )
      (tail, (prev, next, tt))

pub IsQueue-frame :
    (s s' : Timers) (q : ℕ) (xs : List ℕ)
    → All (SameLinks s s') xs
    → (s'.queue q).ev_head ≡ (s.queue q).ev_head
    → (s'.queue q).ev_tail ≡ (s.queue q).ev_tail
    → IsQueue s q xs
    → IsQueue s' q xs
IsQueue-frame s s' q xs h a b k = record {
  head = a ∙ k.head;
  tail = b ∙ k.tail;
  linked = Linked-frame s s' none none xs h k.linked;
  distinct = k.distinct;
}
