-- ===== src/Timeout/Tests.antt =====
-- Timeouts of concrete events.
use luasys.Base.{
  ℕ, ◌-◌, ◌≤◌, ◌≡◌, refl, ◌⊎◌, true, false, Option, none, some, [], ◌∷◌, arith, min, ◌==◌,
  if◌then◌else◌,
}
use luasys.Timeout.{Event, Queue, Timers, add, find, enter, add_queue, get, max_timeout, to_long}
use luasys.Timeout.Wait.{NoneBefore, SomeAt, start_at, get_lem}

abbrev no_event : Event
no_event = record {
  next_ready = none;
  prev = none;
  next = none;
  tq = none;
  timeout_at = 0;
  timed_out = false;
}

abbrev no_queue : Queue
no_queue = record { tq_prev = none; tq_next = none; ev_head = none; ev_tail = none; msec = 0 }

-- Events 1 and 2 have their timeouts at 130 and 145, in the queues 10 and 20.
abbrev two_queues : Timers
two_queues = record {
  event = λ a.
      if a == 1
      then record no_event { tq = some 10; timeout_at = 130 }
      else (if a == 2 then record no_event { tq = some 20; timeout_at = 145 } else no_event);
  queue = λ a.
      if a == 10
      then record no_queue { tq_next = some 20; ev_head = some 1; ev_tail = some 1; msec = 30 }
      else (if a == 20
          then record no_queue { tq_prev = some 10; ev_head = some 2; ev_tail = some 2; msec = 50 }
          else no_queue);
  tq_head = some 10;
  ev_free = none;
  has_map = true;
  tq_map = λ m. if m == 30 then some 10 else if m == 50 then some 20 else none;
}

get_lem_example :
    (t : ℕ) × (get 2 (some 10) (some 100) 100 two_queues
      ≡ some (min (to_long t - to_long 100) max_timeout))
    × (to_long t ≤ to_long (start_at two_queues 10 (some 100) 100))
    × NoneBefore two_queues t (10 ∷ 20 ∷ [])
    × ((t ≡ start_at two_queues 10 (some 100) 100) ⊎ SomeAt two_queues t (10 ∷ 20 ∷ []))
get_lem_example =
    get_lem (10 ∷ 20 ∷ []) 2 10 (some 100) 100 two_queues (refl, refl, (refl, refl)) (omega arith)

-- One more event of 30 milliseconds follows event 1.
abbrev with_third : Option Timers
with_third = add 3 3 30 101 two_queues

-- A new interval takes the free event 30 for its queue, in front of the other two.
abbrev with_queue : Option Timers
with_queue = add 3 3 40 100 (record two_queues { ev_free = some 30 })

abbrev tail_of : ℕ → Option Timers → Option ℕ
tail_of q none = none
tail_of q (some s) = (s.queue q).ev_tail

abbrev next_of : ℕ → Option Timers → Option ℕ
next_of q none = none
next_of q (some s) = (s.queue q).tq_next

add_places : (tail_of 10 with_third ≡ some 3) × (next_of 30 with_queue ≡ some 10)
unfolding add find enter add_queue to_long
add_places = (refl, refl)
