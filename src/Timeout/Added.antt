-- ===== src/Timeout/Added.antt =====
-- `timeout_add` finds the queue of an interval in the table, or makes one.
use luasys.Base.{
  ℕ, ◌≡◌, ◌≢◌, refl, ◌∙◌, ap, Option, none, some, true, Bool, List, [], ◌∷◌, ◌++◌, ◌==◌, ==_iff,
  sym, subst, if◌then◌else◌, arith,
}
use luasys.TaskList.Ring.{NotIn}
use luasys.Timeout.{
  Timers, Queue, find, search_map, add, add_queue, enter, link_next, set_queue, change_map,
  link_tq_prev, link_tq_next,
}
use luasys.Timeout.Moving.{IsQueue}
use luasys.Timeout.Kept.{add_here, add_here-IsQueue}

-- The end of `timeout_add`, after the search
abbrev add_found : (ev msec now : ℕ) → Timers → Option ℕ × Option ℕ → Option Timers
add_found ev msec now s (p, at) = elim at [
  | none ↦ add_queue ev msec now p none s
  | some q ↦
      if (s.queue q).msec == msec
      then some
          (enter ev q msec now (s.queue q).ev_tail (link_next (s.queue q).ev_tail (some ev) q s))
      else add_queue ev msec now p (some q) s
]

-- With a table, the list of queues is not searched.
add-search_map :
    (f ev msec now : ℕ) (s : Timers)
    → s.has_map ≡ true
    → add f ev msec now s ≡ add_found ev msec now s (search_map msec s)
unfolding add
add-search_map f ev msec now s e =
    ap
      (λ (b : Bool).
        add_found ev msec now s (if b then search_map msec s else find f none s.tq_head msec s))
      e

search_map-some :
    (msec q : ℕ) (s : Timers) → s.tq_map msec ≡ some q → search_map msec s ≡ (some q, some q)
search_map-some msec q s e =
    ap
      (λ (o : Option ℕ).
        let r : Option ℕ × Option ℕ = elim o [
          | none ↦ (none, s.tq_head)
          | some q ↦ (some q, some q)
        ] in
        r)
      e

-- When the table of the event queue has a queue for this interval, adding a timeout for an event that
-- is not in it makes the event the last of it.
pub add_lem :
    (s : Timers) (f ev msec now q : ℕ) (xs : List ℕ)
    → s.has_map ≡ true
    → s.tq_map msec ≡ some q
    → (s.queue q).msec ≡ msec
    → IsQueue s q xs
    → NotIn ev xs
    → (s' : Timers) × (add f ev msec now s ≡ some s') × IsQueue s' q (xs ++ ev ∷ [])
add_lem s f ev msec now q xs has_map found same k out = (
  add_here ev q msec now s,
  add-search_map f ev msec now s has_map
      ∙ ap (add_found ev msec now s) (search_map-some msec q s found)
      ∙ ap
          (λ (b : Bool).
            if b
            then some (add_here ev q msec now s)
            else add_queue ev msec now (some q) (some q) s)
          ((==_iff (s.queue q).msec msec).1 same),
  add_here-IsQueue s ev q msec now xs k out,
)

search_map-none :
    (msec : ℕ) (s : Timers) → s.tq_map msec ≡ none → search_map msec s ≡ (none, s.tq_head)
search_map-none msec s e =
    ap
      (λ (o : Option ℕ).
        let r : Option ℕ × Option ℕ = elim o [
          | none ↦ (none, s.tq_head)
          | some q ↦ (some q, some q)
        ] in
        r)
      e

-- The first queue of the list, if there is one, is not of this interval.
abbrev pub OtherHead : ℕ → Timers → Option ℕ → Type 0
OtherHead msec s none = Unit
OtherHead msec s (some h) = (s.queue h).msec ≢ msec

add_found-new :
    (ev msec now : ℕ) (s : Timers) (at : Option ℕ)
    → OtherHead msec s at
    → add_found ev msec now s (none, at) ≡ add_queue ev msec now none at s
add_found-new ev msec now s none other = refl
add_found-new ev msec now s (some h) other = ground (arith, other)

-- Queue `q` is new, in front of those from `at` on.
abbrev pub IsFirst : Timers → (q ev msec : ℕ) → Option ℕ → Timers → Type 0
IsFirst s q ev msec at s' =
    IsQueue s' q (ev ∷ [])
    × (s'.tq_head ≡ some q)
    × ((s'.queue q).tq_next ≡ at)
    × ((s'.queue q).msec ≡ msec)
    × (s'.tq_map msec ≡ some q)
    × (s'.ev_free ≡ (s.event q).next_ready)

-- The state before the new queue is put into the table
abbrev linked : (ev msec q : ℕ) → Option ℕ → Timers → Timers
linked ev msec q at s =
    let s0 = record s { ev_free = (s.event q).next_ready } in
    let s1 = link_tq_prev at (some q) s0 in
    let new : Queue = record {
      tq_prev = none;
      tq_next = at;
      ev_head = some ev;
      ev_tail = none;
      msec = msec;
    } in
    link_tq_next none (some q) (set_queue q new s1)

linked-facts :
    (ev msec q : ℕ) (at : Option ℕ) (s : Timers)
    → let s' = linked ev msec q at s in
      (s'.has_map ≡ s.has_map)
      × (s'.tq_head ≡ some q)
      × ((s'.queue q).tq_next ≡ at)
      × ((s'.queue q).msec ≡ msec)
      × ((s'.queue q).ev_head ≡ some ev)
      × (s'.ev_free ≡ (s.event q).next_ready)
linked-facts ev msec q none s = (refl, refl, ground arith, ground arith, ground arith, refl)
linked-facts ev msec q (some h) s = (refl, refl, ground arith, ground arith, ground arith, refl)

enter-IsFirst :
    (s s2 : Timers) (ev msec now q : ℕ) (at : Option ℕ)
    → s2.has_map ≡ true
    → s2.tq_head ≡ some q
    → (s2.queue q).tq_next ≡ at
    → (s2.queue q).msec ≡ msec
    → (s2.queue q).ev_head ≡ some ev
    → s2.ev_free ≡ (s.event q).next_ready
    → IsFirst s q ev msec at (enter ev q msec now none (change_map msec (some q) s2))
unfolding enter
enter-IsFirst s s2 ev msec now q at m h n ms e f =
    let s3 : Timers = record s2 { tq_map = λ x. if x == msec then some q else s2.tq_map x } in
    let entered : IsFirst s q ev msec at (enter ev q msec now none s3) = (
      record {
        head = ground (arith, e);
        tail = ground arith;
        linked = (ground arith, ground arith, tt);
        distinct = (tt, tt);
      },
      h,
      ground (arith, n),
      ground (arith, ms),
      ground arith,
      f,
    ) in
    subst (λ (b : Bool). IsFirst s q ev msec at (enter ev q msec now none (if b then s3 else s2)))
      (sym m) entered

add_queue-linked :
    (s : Timers) (ev msec now q : ℕ) (at : Option ℕ)
    → s.ev_free ≡ some q
    → add_queue ev msec now none at s
      ≡ some (enter ev q msec now none (change_map msec (some q) (linked ev msec q at s)))
unfolding add_queue
add_queue-linked s ev msec now q at free =
    ap
      (λ (o : Option ℕ).
        let r : Option Timers = elim o [
          | none ↦ none
          | some q ↦
              some (enter ev q msec now none (change_map msec (some q) (linked ev msec q at s)))
        ] in
        r)
      free

-- When the table has no queue for this interval, and the list does not begin with one, adding a
-- timeout for an event takes the first free event for a new queue, in front of the list, with this
-- event alone in it, and puts the queue into the table.
pub add_new :
    (s : Timers) (f ev msec now q : ℕ)
    → s.has_map ≡ true
    → s.tq_map msec ≡ none
    → OtherHead msec s s.tq_head
    → s.ev_free ≡ some q
    → (s' : Timers) × (add f ev msec now s ≡ some s') × IsFirst s q ev msec s.tq_head s'
add_new s f ev msec now q has_map absent other free =
    let s2 = linked ev msec q s.tq_head s in
    let (m, h, n, ms, e, fr) = linked-facts ev msec q s.tq_head s in
    (
      enter ev q msec now none (change_map msec (some q) s2),
      add-search_map f ev msec now s has_map
          ∙ ap (add_found ev msec now s) (search_map-none msec s absent)
          ∙ add_found-new ev msec now s s.tq_head other
          ∙ add_queue-linked s ev msec now q s.tq_head free,
      enter-IsFirst s s2 ev msec now q s.tq_head (m ∙ has_map) h n ms e fr,
    )
