-- ===== src/Timeout/QueueTests.antt =====
-- Events of one queue.
use luasys.Base.{◌+◌, ◌^◌, ◌≡◌, refl, true, false, none, some, [], ◌∷◌, ◌==◌, if◌then◌else◌, arith}
use luasys.Timeout.{Event, Queue, Timers, del, reset, add, plus_int, to_long}
use luasys.Timeout.Expire.{process_queue}
use luasys.Timeout.Moving.{IsQueue}
use luasys.Timeout.Deleted.{del_lem}
use luasys.Timeout.Kept.{reset_lem}
use luasys.Timeout.Added.{IsFirst, add_lem, add_new}
use luasys.Timeout.Expire.Round.{IsTurned, process_queue_lem}
use luasys.Timeout.Expire.Order.{NoneDue, IsTimed, process_queue-IsTimed}

abbrev no_event : Event
no_event = record {
  next_ready = none;
  prev = none;
  next = none;
  tq = none;
  timeout_at = 0;
  timed_out = false;
}

abbrev no_queue : Queue
no_queue = record { tq_prev = none; tq_next = none; ev_head = none; ev_tail = none; msec = 0 }

-- Queue 10 has the events 1, 2 and 3, with timeouts at 105, 108 and 140.
abbrev three_events : Timers
three_events = record {
  event = λ a.
      if a == 1
      then record no_event { next = some 2; tq = some 10; timeout_at = 105 }
      else (if a == 2
          then record no_event { prev = some 1; next = some 3; tq = some 10; timeout_at = 108 }
          else (if a == 3
              then record no_event { prev = some 2; tq = some 10; timeout_at = 140 }
              else no_event));
  queue = λ a.
      if a == 10
      then record no_queue { ev_head = some 1; ev_tail = some 3; msec = 50 }
      else no_queue;
  tq_head = some 10;
  ev_free = none;
  has_map = true;
  tq_map = λ m. if m == 50 then some 10 else none;
}

three_events-IsQueue : IsQueue three_events 10 (1 ∷ 2 ∷ 3 ∷ [])
three_events-IsQueue = record {
  head = refl;
  tail = refl;
  linked = ((refl, refl, (refl, refl, (refl, refl, tt))));
  distinct = (((λ e. omega arith), ((λ e. omega arith), tt)), (((λ e. omega arith), tt), (tt, tt)));
}

del_lem_example : IsQueue (del 2 three_events) 10 (1 ∷ 3 ∷ [])
del_lem_example = del_lem three_events 10 2 (1 ∷ []) (3 ∷ []) three_events-IsQueue refl (λ e. cc)

reset_lem_example : IsQueue (reset 1 10 100 three_events) 10 (2 ∷ 3 ∷ 1 ∷ [])
reset_lem_example = reset_lem three_events 10 1 100 [] (2 ∷ 3 ∷ []) three_events-IsQueue

add_lem_example :
    (s' : Timers) × (add 1 4 50 100 three_events ≡ some s') × IsQueue s' 10 (1 ∷ 2 ∷ 3 ∷ 4 ∷ [])
add_lem_example =
    add_lem three_events 1 4 50 100 10 (1 ∷ 2 ∷ 3 ∷ []) refl refl refl three_events-IsQueue
      ((λ e. omega arith), ((λ e. omega arith), ((λ e. omega arith), tt)))

process_queue_lem_example :
    let (ready', s') = process_queue 3 10 (2 ^ 31 + 110) 100 none three_events in
    IsTurned three_events s' 10 150 none ready' (3 ∷ []) (1 ∷ 2 ∷ [])
unfolding plus_int to_long
process_queue_lem_example =
    process_queue_lem three_events 3 10 (2 ^ 31 + 110) 100 none (1 ∷ 2 ∷ 3 ∷ [])
      three_events-IsQueue (omega arith)

process_queue-IsTimed_example :
    let s' = (process_queue 3 10 (2 ^ 31 + 110) 100 none three_events).1 in
    NoneDue s' (2 ^ 31 + 110) (3 ∷ [])
    × IsQueue s' 10 (3 ∷ 1 ∷ 2 ∷ [])
    × IsTimed s' (2 ^ 31 + 150) (3 ∷ 1 ∷ 2 ∷ [])
unfolding plus_int to_long
process_queue-IsTimed_example =
    process_queue-IsTimed three_events 3 10 (2 ^ 31 + 110) 100 none (1 ∷ 2 ∷ 3 ∷ [])
      three_events-IsQueue (omega arith)
      (
        omega arith,
        (omega arith, (omega arith, tt)),
        (omega arith, (omega arith, tt), (omega arith, tt, tt)),
      )

-- Event 5 is the first of 40 milliseconds, and 30 is a free event.
abbrev with_free : Timers
with_free = record three_events { ev_free = some 30 }

add_new_example :
    (s' : Timers) × (add 1 5 40 100 with_free ≡ some s') × IsFirst with_free 30 5 40 (some 10) s'
add_new_example = add_new with_free 1 5 40 100 30 refl refl (λ e. omega arith) refl
