-- ===== src/Poll.antt =====
-- event/poll.c: the array of events that are polled for, and the round over the result of `poll`.
-- Events are named by numbers. Signals, timers and the timeouts of events are not in the array.
pub mod Scan
pub mod Tests
use luasys.Base.{
  ℕ, zero, suc, ◌+◌, ◌-◌, ◌*◌, ◌/◌, ◌%◌, ◌^◌, Bool, true, false, not, ◌&&◌, ◌||◌, List, [], ◌∷◌,
  Option, none, some, ltb, leb, ◌==◌, if◌then◌else◌,
}

-- The bits of `revents`; the third is POLLERR or POLLNVAL.
pub record Revents : Type 0 where
  pub pollin : Bool
  pub pollout : Bool
  pub pollerr : Bool
  pub pollhup : Bool

-- `struct pollfd`; `events` is POLLIN or else POLLOUT.
pub record PollFd : Type 0 where
  pub fd : ℕ
  pub reads : Bool
  pub revents : Revents

-- `flags`, `fd` and `index` of `struct event`
pub record PollEvent : Type 0 where
  pub fd : ℕ
  pub index : ℕ
  pub read : Bool
  pub write : Bool
  pub oneshot : Bool
  pub active : Bool
  pub read_res : Bool
  pub write_res : Bool
  pub eof_res : Bool
  pub deleted : Bool

-- The array of `struct event_queue`, and the events by number. `evq_del` calls `realloc` on the array
-- just when it changes `max_polls`.
pub record Polls : Type 0 where
  pub nevents : ℕ
  pub npolls : ℕ
  pub max_polls : ℕ
  pub events : ℕ → ℕ
  pub fdset : ℕ → PollFd
  pub event : ℕ → PollEvent

abbrev pub no_revents : Revents
no_revents = record { pollin = false; pollout = false; pollerr = false; pollhup = false }

-- Assignments to one place
unfoldable pub put_event : ℕ → PollEvent → (ℕ → PollEvent) → ℕ → PollEvent
put_event i e f j = if j == i then e else f j

unfoldable pub put_fd : ℕ → PollFd → (ℕ → PollFd) → ℕ → PollFd
put_fd i e f j = if j == i then e else f j

unfoldable pub put_at : ℕ → ℕ → (ℕ → ℕ) → ℕ → ℕ
put_at i e f j = if j == i then e else f j

-- NEVENT
abbrev pub nevent : ℕ
nevent = 64

-- `evq_add`, from the two calls of `realloc` on, which may fail; `none` is the error.
unfoldable pub add_at : ℕ → Polls → Polls
unfolding put_event put_fd put_at
add_at ev q =
    let e : PollEvent = q.event ev in
    record q {
      fdset = put_fd q.npolls (record { fd = e.fd; reads = e.read; revents = no_revents }) q.fdset;
      npolls = (q.npolls + 1) % 2 ^ 32;
      events = put_at q.npolls ev q.events;
      event = put_event ev (record e { index = q.npolls; deleted = false }) q.event;
      nevents = (q.nevents + 1) % 2 ^ 32;
    }

pub add : (events_grow fdset_grows : Bool) → ℕ → Polls → Option Polls
unfolding add_at
add events_grow fdset_grows ev q =
    if leb q.max_polls q.npolls
    then (if events_grow && fdset_grows
        then some (add_at ev (record q { max_polls = 2 * q.max_polls % 2 ^ 32 }))
        else none)
    else some (add_at ev q)

-- `evq_del` of an event in the array
unfoldable pub del : ℕ → Polls → Polls
unfolding put_event put_fd put_at
del ev q =
    let npolls : ℕ = (q.npolls + (2 ^ 32 - 1)) % 2 ^ 32 in
    let i : ℕ = (q.event ev).index in
    let moved : ℕ = q.events npolls in
    let gone : ℕ → PollEvent = put_event ev (record (q.event ev) { deleted = true }) q.event in
    let shrinks : Bool = ltb (nevent / 2) npolls && leb npolls (q.max_polls / 4) in
    let inner : Bool = ltb i npolls in
    record q {
      nevents = (q.nevents + (2 ^ 32 - 1)) % 2 ^ 32;
      npolls = npolls;
      events = if inner then put_at i moved q.events else q.events;
      event = if inner then put_event moved (record (gone moved) { index = i }) gone else gone;
      fdset = if inner then put_fd i (q.fdset npolls) q.fdset else q.fdset;
      max_polls = if shrinks then q.max_polls / 2 else q.max_polls;
    }

-- `evq_modify`
pub modify : ℕ → Bool → Polls → Polls
unfolding put_fd
modify ev read q =
    let i : ℕ = (q.event ev).index in
    record q { fdset = put_fd i (record (q.fdset i) { reads = read }) q.fdset }

abbrev pub is_set : Revents → Bool
is_set r = r.pollin || r.pollout || r.pollerr || r.pollhup

-- The flags that a round of `evq_wait` sets, but for EVENT_ACTIVE
unfoldable pub with_result : Revents → PollEvent → PollEvent
with_result r e =
    let failed : Bool = r.pollerr || r.pollhup in
    let can_read : Bool = (r.pollin || failed) && e.read in
    let can_write : Bool = (r.pollout || failed) && e.write in
    record e {
      eof_res = e.eof_res || r.pollhup;
      read_res = e.read_res || can_read;
      write_res = e.write_res || (not can_read && can_write);
    }

-- The body of the loop of `evq_wait` for a place with a result, and the list of ready events
unfoldable pub visit : ℕ → Polls → List ℕ → Polls × List ℕ
unfolding put_event put_fd with_result del
visit i q ready =
    let fdp : PollFd = q.fdset i in
    let ev : ℕ = q.events i in
    let e : PollEvent = with_result fdp.revents (q.event ev) in
    let q1 = record q { fdset = put_fd i (record fdp { revents = no_revents }) q.fdset } in
    let seen = record q1 { event = put_event ev e q.event } in
    let now_active = record q1 { event = put_event ev (record e { active = true }) q.event } in
    if e.active
    then (seen, ready)
    else ((if e.oneshot then del ev now_active else now_active), ev ∷ ready)

-- The loop of `evq_wait`, on so many places from `i` on. It uses pointers to the arrays from before
-- the loop, which are no longer valid once `evq_del` has called `realloc` on these: none is a read
-- through such a pointer.
pub scan : ℕ → ℕ → ℕ → Polls → List ℕ → Option (Polls × List ℕ)
unfolding visit
scan zero i nready q ready = some (q, ready)
scan (suc n) i nready q ready =
    let (q1, ready1) = visit i q ready in
    let after = scan n (i + 1) (nready - 1) q1 ready1 in
    let rest = scan n (i + 1) nready q ready in
    let is_last : Bool = n == 0 || nready - 1 == 0 in
    let stale : Option (Polls × List ℕ) = if is_last then some (q1, ready1) else none in
    if nready == 0
    then some (q, ready)
    else (if is_set (q.fdset i).revents
        then (if q1.max_polls == q.max_polls then after else stale)
        else rest)
