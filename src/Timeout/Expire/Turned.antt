-- ===== src/Timeout/Expire/Turned.antt =====
-- `timeout_process` on one queue: the events that became ready go behind the others.
use luasys.Base.{ℕ, ◌≡◌, refl, sym, ◌∙◌, subst, Option, none, some, List, [], ◌∷◌, ◌++◌, arith}
use luasys.TaskList.Ring.{NotIn, Distinct}
use luasys.Timeout.{Timers, set_event, set_queue, link_next}
use luasys.Timeout.Expire.{recycle}
use luasys.Timeout.Linked.{
  last, last-some, Linked, Linked-frame, IsOut, Linked-other, link_prev-Linked, link_next-Linked,
  link_prev-Front, All, All_map, SameLinks, link_next-Front, link_prev-Rest, relink_last,
}
use luasys.Timeout.Moving.{
  IsQueue, IsQueue-Front-Rest, Front-Rest-IsQueue, Front-frame, Rest-frame, Distinct-split,
  Distinct-append, last-none-IsOut,
}

All_NotIn-cons :
    (y : ℕ) (xs ys : List ℕ)
    → All (λ x. NotIn x (y ∷ ys)) xs
    → NotIn y xs × All (λ x. NotIn x ys) xs
All_NotIn-cons y [] ys h = (tt, tt)
All_NotIn-cons y (x ∷ xs) ys ((ne, n), h) =
    let (a, b) = All_NotIn-cons y xs ys h in (((λ e. ne (sym e)), a), (n, b))

All_turn : (xs ys : List ℕ) → All (λ x. NotIn x ys) xs → All (λ y. NotIn y xs) ys
All_turn xs [] h = tt
All_turn xs (y ∷ ys) h = let (a, b) = All_NotIn-cons y xs ys h in (a, All_turn xs ys b)

-- The first half of `recycle`: the queue begins with `e`, and what was before it hangs loose.
cut-IsQueue :
    (s : Timers) (q e : ℕ) (xs ys : List ℕ)
    → IsQueue s q (xs ++ e ∷ ys)
    → let s1 = set_queue q (record (s.queue q) { ev_head = some e }) s in
      let s2 = set_event e (record (s1.event e) { prev = none }) s1 in
      IsQueue s2 q (e ∷ ys) × Linked s2 none xs (some e)
cut-IsQueue s q e xs ys k =
    let (dx, de, apart) = Distinct-split xs (e ∷ ys) k.distinct in
    let (front, rest) = IsQueue-Front-Rest s q xs (e ∷ ys) k in
    let s1 = set_queue q (record (s.queue q) { ev_head = some e }) s in
    let s2 = set_event e (record (s1.event e) { prev = none }) s1 in
    let same : (x : ℕ) → SameLinks s s1 x = λ x. (refl, refl) in
    let rest1 = Rest-frame s s1 q (last none xs) (e ∷ ys) same (ground arith) rest in
    let (t, l) = link_prev-Rest s1 q (e ∷ ys) (last none xs) none de rest1 in
    (
      record { head = ground arith; tail = t; linked = l; distinct = de },
      Linked-other s1 e (record (s1.event e) { prev = none }) xs none (some e)
          (All_NotIn-cons e xs ys apart).0
          (Linked-frame s s1 none (some e) xs (All_map (SameLinks s s1) xs same) front.1),
    )

set_tail-head :
    (s : Timers) (q : ℕ) (t : Option ℕ)
    → let s' = set_queue q (record (s.queue q) { ev_tail = t }) s in
      ((s'.queue q).ev_head ≡ (s.queue q).ev_head) × ((s'.queue q).ev_tail ≡ t)
set_tail-head s q t = (ground arith, ground arith)

-- The second half: the loose events are put behind the last one.
abbrev hang : (q h a : ℕ) → Option ℕ → Timers → Timers
hang q h a tail s =
    let s3 = link_next tail (some h) q s in
    let s4 = set_event h (record (s3.event h) { prev = tail }) s3 in
    let s5 = set_queue q (record (s4.queue q) { ev_tail = some a }) s4 in
    link_next (some a) none q s5

hang-IsQueue :
    (s : Timers) (q h a : ℕ) (n : Option ℕ) (xs zs : List ℕ)
    → IsQueue s q zs
    → Linked s none (h ∷ xs) n
    → Distinct (h ∷ xs)
    → All (λ z. NotIn z (h ∷ xs)) zs
    → last (some h) xs ≡ some a
    → IsQueue (hang q h a (last none zs) s) q (zs ++ h ∷ xs)
hang-IsQueue s q h a n xs zs k l d apart e =
    let tail = last none zs in
    let turned = All_turn zs (h ∷ xs) apart in
    let a_out : NotIn a zs = subst (λ o. IsOut o zs) e (last-none-IsOut (h ∷ xs) zs turned) in
    let s3 = link_next tail (some h) q s in
    let f3 = link_next-Front s q zs none (some h) k.distinct (k.head, k.linked) in
    let l3 =
      link_next-Linked s q tail (some h) (h ∷ xs) none n (last-none-IsOut zs (h ∷ xs) apart) l in
    let s4 = set_event h (record (s3.event h) { prev = tail }) s3 in
    let f4 = link_prev-Front s3 q zs (some h) tail (some h) turned.0 f3 in
    let l4 = link_prev-Linked s3 h xs none tail n d.0 l3 in
    let s5 = set_queue q (record (s4.queue q) { ev_tail = some a }) s4 in
    let same : (x : ℕ) → SameLinks s4 s5 x = λ x. (refl, refl) in
    let f5 = Front-frame s4 s5 q zs (some h) same (set_tail-head s4 q (some a)).0 f4 in
    let l5 = Linked-frame s4 s5 tail n (h ∷ xs) (All_map (SameLinks s4 s5) (h ∷ xs) same) l4 in
    let s6 = link_next (some a) none q s5 in
    Front-Rest-IsQueue s6 q zs (h ∷ xs) (Distinct-append zs (h ∷ xs) k.distinct d apart)
      (f5.0, Linked-other s5 a (record (s5.event a) { next = none }) zs none (some h) a_out f5.1)
      ((set_tail-head s4 q (some a)).1 ∙ sym e, relink_last s5 tail n none a h xs e d l5)

-- The front of the queue, `h` and `xs`, is put behind the rest of it, `e` and `ys`.
pub recycle-IsQueue :
    (s : Timers) (q h e : ℕ) (xs ys : List ℕ)
    → IsQueue s q ((h ∷ xs) ++ e ∷ ys)
    → IsQueue (recycle q e h (last (some h) xs) s) q ((e ∷ ys) ++ h ∷ xs)
unfolding recycle
recycle-IsQueue s q h e xs ys k =
    let (dh, de, apart) = Distinct-split (h ∷ xs) (e ∷ ys) k.distinct in
    let (a, is_last) = last-some h xs in
    let s1 = set_queue q (record (s.queue q) { ev_head = some e }) s in
    let s2 = set_event e (record (s1.event e) { prev = none }) s1 in
    let (k2, l2) = cut-IsQueue s q e (h ∷ xs) ys k in
    let done =
      hang-IsQueue s2 q h a (some e) xs (e ∷ ys) k2 l2 dh (All_turn (h ∷ xs) (e ∷ ys) apart)
        is_last in
    subst (λ o. IsQueue (recycle q e h o s) q ((e ∷ ys) ++ h ∷ xs)) (sym is_last)
      (subst (λ o. IsQueue (hang q h a o s2) q ((e ∷ ys) ++ h ∷ xs)) (sym k2.tail) done)

-- The fields of events that are not links
abbrev pub SameData : Timers → Timers → ℕ → Type 0
SameData s s' x =
    ((s'.event x).timeout_at ≡ (s.event x).timeout_at)
    × ((s'.event x).timed_out ≡ (s.event x).timed_out)
    × ((s'.event x).next_ready ≡ (s.event x).next_ready)

SameData-trans : (s s1 s2 : Timers) (x : ℕ) → SameData s s1 x → SameData s1 s2 x → SameData s s2 x
SameData-trans s s1 s2 x (a, b, c) (d, e, f) = (d ∙ a, e ∙ b, f ∙ c)

link_next-SameData : (o m : Option ℕ) (q x : ℕ) (s : Timers) → SameData s (link_next o m q s) x
link_next-SameData none m q x s = (refl, refl, refl)
link_next-SameData (some a) m q x s = (ground arith, ground arith, ground arith)

set_prev-SameData :
    (a x : ℕ) (o : Option ℕ) (s : Timers)
    → SameData s (set_event a (record (s.event a) { prev = o }) s) x
set_prev-SameData a x o s = (ground arith, ground arith, ground arith)

pub recycle-SameData : (q e h x : ℕ) (o : Option ℕ) (s : Timers) → SameData s (recycle q e h o s) x
unfolding recycle
recycle-SameData q e h x o s =
    let s1 = set_queue q (record (s.queue q) { ev_head = some e }) s in
    let s2 = set_event e (record (s1.event e) { prev = none }) s1 in
    let tail = (s2.queue q).ev_tail in
    let s3 = link_next tail (some h) q s2 in
    let s4 = set_event h (record (s3.event h) { prev = tail }) s3 in
    let s5 = set_queue q (record (s4.queue q) { ev_tail = o }) s4 in
    SameData-trans s s2 (link_next o none q s5) x (set_prev-SameData e x none s1) (
      SameData-trans s2 s3 (link_next o none q s5) x (link_next-SameData tail (some h) q x s2) (
        SameData-trans s3 s4 (link_next o none q s5) x (set_prev-SameData h x tail s3)
          (link_next-SameData o none q x s5)))
