-- ===== src/Timeout/Expire.antt =====
-- `timeout_process`: the events whose time has come go to the ready list, and those of them that
-- stand in front of others go to the end of their queue.
pub mod Marked
pub mod Order
pub mod Round
pub mod Turned
use luasys.Base.{ℕ, zero, suc, ◌+◌, true, Option, none, some, ltb, if◌then◌else◌}
use luasys.Timeout.{Timers, set_event, set_queue, link_next, min_timeout, plus_int, to_long}

-- The long `timeout` is counted from - 2 ^ 31 on, as by `to_long`.
-- The inner loop, from event `ev` on, with the new `timeout_at`: where it ends, and the head of the
-- ready events.
pub expire : ℕ → (ev timeout at : ℕ) → Option ℕ → Timers → Option ℕ × Option ℕ × Timers
expire zero ev timeout at ready s = (some ev, ready, s)
expire (suc f) ev timeout at ready s =
    let e = record (s.event ev) { timed_out = true; timeout_at = at; next_ready = ready } in
    let s' = set_event ev e s in
    elim (s.event ev).next [
      | none ↦ (none, some ev, s')
      | some n ↦
          let rest = expire f n timeout at (some ev) s' in
          if ltb (to_long (s'.event n).timeout_at) timeout then rest else (some n, some ev, s')
    ]

-- Recycle timeout queue: `ev` is its new head, the old one, `head`, follows the tail, and the last
-- event that became ready is the new tail.
pub recycle : (q ev head : ℕ) → Option ℕ → Timers → Timers
recycle q ev head ready s =
    let s1 = set_queue q (record (s.queue q) { ev_head = some ev }) s in
    let s2 = set_event ev (record (s1.event ev) { prev = none }) s1 in
    let tail = (s2.queue q).ev_tail in
    let s3 = link_next tail (some head) q s2 in
    let s4 = set_event head (record (s3.event head) { prev = tail }) s3 in
    let s5 = set_queue q (record (s4.queue q) { ev_tail = ready }) s4 in link_next ready none q s5

-- One queue of `timeout_process`
pub process_queue : ℕ → (q timeout now : ℕ) → Option ℕ → Timers → Option ℕ × Timers
unfolding expire recycle
process_queue f q timeout now ready s = elim (s.queue q).ev_head [
  | none ↦ (ready, s)
  | some head ↦
      let (rest, ready', s') = expire f head timeout (plus_int now (s.queue q).msec) ready s in
      if ltb (to_long (s.event head).timeout_at) timeout
      then (ready', elim rest [ none ↦ s' | some ev ↦ recycle q ev head ready' s' ])
      else (ready, s)
]

-- `timeout_process`, with fuel for the queues and for the events of each of them
pub process : (queues events : ℕ) → Option ℕ → Option ℕ → ℕ → Timers → Option ℕ × Timers
unfolding process_queue
process zero fe tq ready now s = (ready, s)
process (suc fq) fe none ready now s = (ready, s)
process (suc fq) fe (some q) ready now s =
    let (ready', s') = process_queue fe q (to_long now + min_timeout) now ready s in
    process fq fe (s'.queue q).tq_next ready' now s'
