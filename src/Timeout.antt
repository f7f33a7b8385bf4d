-- ===== src/Timeout.antt =====
-- event/timeout.c: the timeouts of events. There is one queue for each interval, its events in the
-- order of their timeouts, and the queues are in a list. Events and queues are found by address. A
-- `msec_t` is its 32 bits, a number below 2 ^ 32, and the loops over a list run on fuel. The queue
-- of an interval is looked up in the table of `levq_timeout_map` in sys_evq.c, which `levq_new`
-- installs, or else in the list, which is then sorted.
pub mod Linked
pub mod Moving
pub mod Deleted
pub mod Kept
pub mod Added
pub mod Wait
pub mod Expire
mod Tests
mod QueueTests
use luasys.Base.{
  ℕ, zero, suc, ◌+◌, ◌-◌, ◌%◌, ◌^◌, Bool, true, false, ◌&&◌, Option, none, some, ltb, ◌==◌,
  if◌then◌else◌,
}

-- `struct event`, the fields that are used here
pub record Event : Type 0 where
  pub next_ready : Option ℕ
  pub prev : Option ℕ
  pub next : Option ℕ
  pub tq : Option ℕ
  pub timeout_at : ℕ
  pub timed_out : Bool

-- `struct timeout_queue`
pub record Queue : Type 0 where
  pub tq_prev : Option ℕ
  pub tq_next : Option ℕ
  pub ev_head : Option ℕ
  pub ev_tail : Option ℕ
  pub msec : ℕ

-- A sum of type `int`, which wraps around
unfoldable pub plus_int : ℕ → ℕ → ℕ
plus_int a b = (a + b) % 2 ^ 32

-- An `int` as a `long`, counted from - 2 ^ 31 on
unfoldable pub to_long : ℕ → ℕ
to_long a = (a + 2 ^ 31) % 2 ^ 32

-- What the addresses hold, the list of the queues, the list of free events, which are also taken for
-- queues, whether there is a `tq_map_fn`, and its table.
pub record Timers : Type 0 where
  pub event : ℕ → Event
  pub queue : ℕ → Queue
  pub tq_head : Option ℕ
  pub ev_free : Option ℕ
  pub has_map : Bool
  pub tq_map : ℕ → Option ℕ

abbrev pub set_event : ℕ → Event → Timers → Timers
set_event a e s = record s { event = λ b. if b == a then e else s.event b }

abbrev pub set_queue : ℕ → Queue → Timers → Timers
set_queue a q s = record s { queue = λ b. if b == a then q else s.queue b }

-- Assignments to one field through a pointer, with none for NULL: a link of another node, or the
-- head or the tail of the queue.
abbrev pub link_next : Option ℕ → Option ℕ → ℕ → Timers → Timers
link_next none x q s = set_queue q (record (s.queue q) { ev_head = x }) s
link_next (some a) x q s = set_event a (record (s.event a) { next = x }) s

abbrev pub link_prev : Option ℕ → Option ℕ → ℕ → Timers → Timers
link_prev none x q s = set_queue q (record (s.queue q) { ev_tail = x }) s
link_prev (some a) x q s = set_event a (record (s.event a) { prev = x }) s

abbrev pub link_tq_next : Option ℕ → Option ℕ → Timers → Timers
link_tq_next none x s = record s { tq_head = x }
link_tq_next (some q) x s = set_queue q (record (s.queue q) { tq_next = x }) s

abbrev pub link_tq_prev : Option ℕ → Option ℕ → Timers → Timers
link_tq_prev none x s = s
link_tq_prev (some q) x s = set_queue q (record (s.queue q) { tq_prev = x }) s

-- `timeout_reset` of event `ev`, which is in queue `q`
pub reset : (ev q now : ℕ) → Timers → Timers
reset ev q now s =
    let s0 = set_event ev (record (s.event ev) { timeout_at = plus_int now (s.queue q).msec }) s in
    elim (s.event ev).next [
      | none ↦ s0
      | some n ↦
          let p = (s.event ev).prev in
          let s1 = link_next p (some n) q s0 in
          let s2 = set_event n (record (s1.event n) { prev = p }) s1 in
          let tail = (s2.queue q).ev_tail in
          let s3 = set_event ev (record (s2.event ev) { next = none; prev = tail }) s2 in
          let s4 = link_next tail (some ev) q s3 in
          set_queue q (record (s4.queue q) { ev_tail = some ev }) s4
    ]

-- `tq_map_fn` with a queue to add, or with one to remove, which is none
abbrev pub change_map : ℕ → Option ℕ → Timers → Timers
change_map msec o s =
    if s.has_map then record s { tq_map = λ m. if m == msec then o else s.tq_map m } else s

-- `timeout_del`, the last event of a queue: the queue is unlinked and goes to the free events.
drop_queue : ℕ → Timers → Timers
drop_queue q s =
    let p = (s.queue q).tq_prev in
    let n = (s.queue q).tq_next in
    let s1 = link_tq_prev n p (link_tq_next p n s) in
    let s2 = set_event q (record (s1.event q) { next_ready = s1.ev_free }) s1 in
    record (change_map (s.queue q).msec none s2) { ev_free = some q }

-- `timeout_del`
pub del : ℕ → Timers → Timers
unfolding drop_queue
del ev s = elim (s.event ev).tq [
  | none ↦ s
  | some q ↦
      let s0 = set_event ev (record (s.event ev) { tq = none }) s in
      let p = (s0.event ev).prev in
      let n = (s0.event ev).next in
      let unlinked = link_prev n p q (link_next p n q s0) in
      elim p [ none ↦ elim n [ none ↦ drop_queue q s0 | some b ↦ unlinked ] | some a ↦ unlinked ]
]

-- `timeout_add`, search from sorted list: the queue before the place, and the one there
find : ℕ → (prev at : Option ℕ) → ℕ → Timers → Option ℕ × Option ℕ
find zero p at msec s = (p, at)
find (suc f) p none msec s = (p, none)
find (suc f) p (some q) msec s =
    let rest = find f (some q) (s.queue q).tq_next msec s in
    if ltb (to_long (s.queue q).msec) (to_long msec) then rest else (p, some q)

-- `timeout_add`, search from map
abbrev pub search_map : ℕ → Timers → Option ℕ × Option ℕ
search_map msec s = elim (s.tq_map msec) [ none ↦ (none, s.tq_head) | some q ↦ (some q, some q) ]

-- The end of `timeout_add`, for both ways to a queue
pub enter : (ev q msec now : ℕ) → Option ℕ → Timers → Timers
enter ev q msec now p s =
    let s1 = set_queue q (record (s.queue q) { ev_tail = some ev }) s in
    set_event ev
      (record (s1.event ev) { prev = p; next = none; tq = some q; timeout_at = plus_int now msec })
      s1

-- `timeout_add`, a new queue in a free event; none is the result -1.
add_queue : (ev msec now : ℕ) → (prev at : Option ℕ) → Timers → Option Timers
unfolding enter
add_queue ev msec now p at s = elim s.ev_free [
  | none ↦ none
  | some q ↦
      let s0 = record s { ev_free = (s.event q).next_ready } in
      let s1 = link_tq_prev at (some q) s0 in
      let new : Queue = record {
        tq_prev = p;
        tq_next = at;
        ev_head = some ev;
        ev_tail = none;
        msec = msec;
      } in
      some (
        enter ev q msec now none
          (change_map msec (some q) (link_tq_next p (some q) (set_queue q new s1))))
]

-- `timeout_add`
pub add : (fuel ev msec now : ℕ) → Timers → Option Timers
unfolding find enter add_queue
add fuel ev msec now s =
    let found = find fuel none s.tq_head msec s in
    let (p, at) = if s.has_map then search_map msec s else found in
    elim at [
      | none ↦ add_queue ev msec now p none s
      | some q ↦
          if (s.queue q).msec == msec
          then some (
              enter ev q msec now (s.queue q).ev_tail (link_next (s.queue q).ev_tail (some ev) q s))
          else add_queue ev msec now p (some q) s
    ]

-- The first timeout of a queue, which has an event.
abbrev pub head_at : Timers → ℕ → ℕ
head_at s q = elim (s.queue q).ev_head [ none ↦ 0 | some ev ↦ (s.event ev).timeout_at ]

-- MAX_TIMEOUT and MIN_TIMEOUT
abbrev pub max_timeout : ℕ
max_timeout = 2 ^ 31 - 1

abbrev pub min_timeout : ℕ
min_timeout = 10

-- The loop of `timeout_get`
least : ℕ → ℕ → ℕ → Timers → ℕ
least zero q min s = min
least (suc f) q min s =
    let min' : ℕ = if ltb (to_long (head_at s q)) (to_long min) then head_at s q else min in
    elim (s.queue q).tq_next [ none ↦ min' | some n ↦ least f n min' s ]

-- `timeout_get`; none is TIMEOUT_INFINITE
pub get : ℕ → Option ℕ → Option ℕ → ℕ → Timers → Option ℕ
unfolding least
get fuel none min now s = min
get fuel (some q) min now s =
    let start : ℕ = elim min [ none ↦ head_at s q | some m ↦ plus_int m now ] in
    let d : ℕ = to_long (least fuel q start s) - to_long now in
    some (if ltb max_timeout d then max_timeout else d)
