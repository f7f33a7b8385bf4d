-- ===== src/Evq/Loop.antt =====
-- sys_evq.c: the loop of an event queue, split where it waits, calls a function or gives up the VM
-- lock: only there another thread can change the queue. Events and operations are named by numbers.
use luasys.Base.{
  ℕ, ◌+◌, ◌-◌, ◌%◌, ◌^◌, Bool, true, false, not, ◌&&◌, ◌||◌, List, [], ◌∷◌, ◌==◌, if◌then◌else◌,
}

-- `flags` of `struct event_queue`: EVQ_FLAG_STOP, EVQ_FLAG_WAITING, and all the other bits, which are
-- only ever set or reset together. The last two fields count the signals to `wait_tev` and to the
-- thread in `evq_wait`.
pub record Loop : Type 0 where
  pub stop : Bool
  pub waiting : Bool
  pub others : Bool
  pub nevents : ℕ
  pub ev_ready : List ℕ
  pub sync_op : List ℕ
  pub nidles : ℕ
  pub nactives : ℕ
  pub wakes : ℕ
  pub signals : ℕ

-- How a piece of the loop ends: it is over; it calls these operations; it waits in `wait_tev`, or in
-- `evq_wait`; it calls the functions of the ready events; or it starts again.
pub data Phase : Type 0 where
  ended idles waits handles continues : Phase
  processes : List ℕ → Phase

abbrev pub wake : Loop → Loop
wake l = record l { wakes = l.wakes + 1 }

-- From `ev = evq->ev_ready` to the first event
unfoldable pub begin_handling : Loop → Phase × Loop
begin_handling l = elim l.ev_ready [
  | [] ↦ (continues, l)
  | e ∷ es ↦
      let l1 = record l { nactives = (l.nactives + 1) % 2 ^ 32 } in
      let has_next : Bool = elim es [ [] ↦ false | x ∷ xs ↦ true ] in
      (handles, (if not (l.nidles == 0) && has_next then wake l1 else l1))
]

-- The inner loop `for (; ; )` before `evq_wait`, in a thread of the library or in another
unfoldable pub look : Bool → Loop → Phase × Loop
look threaded l =
    if threaded && (not (l.nactives == 0) || l.waiting)
    then (idles, record l { nidles = (l.nidles + 1) % 2 ^ 32 })
    else (waits, record l { waiting = true })

-- A round of `sys_evq_loop` after the operations were called
unfoldable pub after_ops : (threaded linger : Bool) → Loop → Phase × Loop
unfolding begin_handling look
after_ops threaded linger l = elim l.ev_ready [
  | e ∷ es ↦ begin_handling l
  | [] ↦ if not linger && l.nevents == 0 then (ended, l) else look threaded l
]

-- A round of `sys_evq_loop` from its start
unfoldable pub top : (threaded linger : Bool) → Loop → Phase × Loop
unfolding after_ops
top threaded linger l = if l.stop then (ended, l) else elim l.sync_op [
  | op ∷ ops ↦ (processes (op ∷ ops), record l { sync_op = [] })
  | [] ↦ after_ops threaded linger l
]

-- After the wait in `wait_tev`, which may have failed
unfoldable pub idle_over : Bool → Loop → Phase × Loop
unfolding begin_handling look
idle_over failed l =
    let l1 = record l { nidles = (l.nidles + (2 ^ 32 - 1)) % 2 ^ 32 } in
    let is_ready : Bool = elim l.ev_ready [ [] ↦ false | e ∷ es ↦ true ] in
    if failed then (ended, l1) else (if is_ready || l.stop then begin_handling l1 else look true l1)

-- After `evq_wait`, which may have failed and has found these events to be ready
unfoldable pub wait_over : Bool → List ℕ → Loop → Phase × Loop
unfolding begin_handling
wait_over failed ready l =
    let l1 = record l { waiting = false; ev_ready = ready } in
    if failed then (ended, l1) else begin_handling l1

-- One of the ready events is taken off; then, after the last one or an error, the rest of the round
unfoldable pub take_ready : Loop → Loop
take_ready l = elim l.ev_ready [ [] ↦ l | e ∷ es ↦ record l { ev_ready = es } ]

unfoldable pub end_handling : (failed once : Bool) → Loop → Phase × Loop
end_handling failed once l =
    let l1 = record l { nactives = (l.nactives + (2 ^ 32 - 1)) % 2 ^ 32 } in
    ((if failed || once then ended else continues), l1)

-- After the loop
unfoldable pub finish : Loop → Loop
finish l = if not (l.nidles == 0) && not l.waiting then wake l else l

-- `if (evq->flags & EVQ_FLAG_WAITING) evq_signal(evq, EVQ_SIGEVQ)`
abbrev pub interrupt : Loop → Loop
interrupt l = if l.waiting then record l { signals = l.signals + 1 } else l

-- `levq_sync_call` up to the wait for the result
unfoldable pub sync_call : ℕ → Loop → Loop
sync_call op l = interrupt (record l { sync_op = op ∷ l.sync_op })

-- `levq_control_wait`, before a change, with whether the caller is to give up the VM lock until
-- nobody is in `evq_wait`, and after it
unfoldable pub control_begin : Loop → Bool × Loop
control_begin l =
    let l1 = record l { nactives = (l.nactives + 1) % 2 ^ 32 } in
    if (l.nactives == 0) && l.waiting then (true, interrupt l1) else (false, l1)

unfoldable pub control_end : Loop → Loop
control_end l =
    let l1 = record l { nactives = (l.nactives + (2 ^ 32 - 1)) % 2 ^ 32 } in
    if (l1.nactives == 0) && not (l.nidles == 0) then wake l1 else l1

-- `levq_stop`
unfoldable pub stop_loop : Bool → Loop → Loop
stop_loop stop l = interrupt (
    if stop
    then record l { stop = true }
    else record l { stop = false; waiting = true; others = true })

-- `levq_size`
pub size_of : Loop → ℕ
size_of l = l.nevents

-- `levq_new`
unfoldable pub new_loop : Loop
new_loop = record {
  stop = false;
  waiting = false;
  others = false;
  nevents = 0;
  ev_ready = [];
  sync_op = [];
  nidles = 0;
  nactives = 0;
  wakes = 0;
  signals = 0;
}
