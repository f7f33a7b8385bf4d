-- ===== src/Evq/Waiting.antt =====
-- Several threads in the loop of one event queue: who waits, and what wakes them.
use luasys.Base.{
  ℕ, ◌+◌, ◌-◌, ◌≤◌, ◌%◌, ◌^◌, ◌≡◌, refl, sym, ap, arith, ◌∙◌, Bool, true, false, not, ◌&&◌, ◌||◌,
  List, [], ◌∷◌, ◌==◌, if◌then◌else◌, on_branches, subst,
}
use luasys.TaskList.Times.{one_if}
use luasys.Evq.Loop.{
  Loop, Phase, ended, idles, waits, handles, continues, processes, begin_handling, look, after_ops,
  top, idle_over, wait_over, take_ready, end_handling, finish, sync_call, control_begin,
  control_end, stop_loop, interrupt, wake,
}

-- A queue with the number of threads in `evq_wait`.
pub record System : Type 0 where
  pub loop : Loop
  pub in_wait : ℕ

abbrev pub waiters : Phase → ℕ
waiters waits = 1
waiters ended = 0
waiters idles = 0
waiters handles = 0
waiters continues = 0
waiters (processes ops) = 0

-- A thread has come to the end of a piece of the loop.
abbrev pub land : ℕ → Phase × Loop → System
land n (p, l) = record { loop = l; in_wait = n + waiters p }

-- The threads are threads of the library, and nobody calls `stop` to let the loop run again.
pub data Step (s : System) : System → Type 0 where
  tops : (linger : Bool) → Step s (land s.in_wait (top true linger s.loop))
  ops_over : (linger : Bool) → Step s (land s.in_wait (after_ops true linger s.loop))
  idles_over : (failed : Bool) → Step s (land s.in_wait (idle_over failed s.loop))
  waits_over :
      (failed : Bool) (ready : List ℕ)
      → 1 ≤ s.in_wait
      → Step s (land (s.in_wait - 1) (wait_over failed ready s.loop))
  takes : Step s (record s { loop = take_ready s.loop })
  handled : (failed once : Bool) → Step s (land s.in_wait (end_handling failed once s.loop))
  finishes : Step s (record s { loop = finish s.loop })
  syncs : (op : ℕ) → Step s (record s { loop = sync_call op s.loop })
  control_begins : Step s (record s { loop = (control_begin s.loop).1 })
  control_ends : Step s (record s { loop = control_end s.loop })
  stops : Step s (record s { loop = stop_loop true s.loop })
  changes :
      (n : ℕ) (ready : List ℕ)
      → Step s (record s { loop = record s.loop { nevents = n; ev_ready = ready } })

pub data Reach (s : System) : System → Type 0 where
  here : Reach s s
  next : {t u : System} → Reach s t → Step t u → Reach s u

-- The flag says whether a thread is in `evq_wait`.
abbrev pub Flagged : System → Type 0
Flagged s = s.in_wait ≡ one_if s.loop.waiting

abbrev Lands : ℕ → Phase × Loop → Type 0
Lands n r = Flagged (land n r)

interrupt-waiting : (l : Loop) → (interrupt l).waiting ≡ l.waiting
interrupt-waiting l =
    on_branches (λ (u : Loop). u.waiting ≡ l.waiting) l.waiting
      (record l { signals = l.signals + 1 }) l (λ e. refl) (λ e. refl)

wake-waiting : (b : Bool) (l : Loop) → (if b then wake l else l).waiting ≡ l.waiting
wake-waiting true l = refl
wake-waiting false l = refl

take_ready-waiting : (l : Loop) → (take_ready l).waiting ≡ l.waiting
unfolding take_ready
take_ready-waiting l =
    let taken : List ℕ → Loop = λ r. elim r [ [] ↦ l | e ∷ es ↦ record l { ev_ready = es } ] in
    elim l.ev_ready as (λ r. (taken r).waiting ≡ l.waiting) [ [] ↦ refl | e ∷ es ↦ refl ]

-- The flag is the same.
still : (n : ℕ) (l m : Loop) → n ≡ one_if l.waiting → m.waiting ≡ l.waiting → n ≡ one_if m.waiting
still n l m f e = f ∙ sym (ap one_if e)

module _ (n : ℕ) (l : Loop) (f : n ≡ one_if l.waiting) where
  begin-Lands : Lands n (begin_handling l)
  unfolding begin_handling
  begin-Lands =
      let l1 = record l { nactives = (l.nactives + 1) % 2 ^ 32 } in
      let has_next : List ℕ → Bool = λ es. elim es [ [] ↦ false | x ∷ xs ↦ true ] in
      let after : List ℕ → Loop =
        λ es. if not (l.nidles == 0) && has_next es then wake l1 else l1 in
      elim l.ev_ready
        as (λ r. Lands n (elim r [ [] ↦ (continues, l) | e ∷ es ↦ (handles, after es) ])) [
          | [] ↦ omega (arith, f)
          | e ∷ es ↦
              omega (
                arith,
                still n l (after es) f (wake-waiting (not (l.nidles == 0) && has_next es) l1),
              )
        ]

  look-Lands : Lands n (look true l)
  unfolding look
  look-Lands =
      on_branches (Lands n) (not (l.nactives == 0) || l.waiting)
        (idles, record l { nidles = (l.nidles + 1) % 2 ^ 32 }) (waits, record l { waiting = true })
        (λ e. ground (arith, f)) (λ e. ground (arith, f, e))

  after_ops-Lands : (linger : Bool) → Lands n (after_ops true linger l)
  unfolding after_ops
  after_ops-Lands linger =
      elim l.ev_ready
        as (λ r. Lands n (elim r [
          | e ∷ es ↦ begin_handling l
          | [] ↦ if not linger && l.nevents == 0 then (ended, l) else look true l
        ])) [
          | e ∷ es ↦ begin-Lands
          | [] ↦
              on_branches (Lands n) (not linger && l.nevents == 0) (ended, l) (look true l)
                (λ y. omega (arith, f)) (λ y. look-Lands)
        ]

  top-Lands : (linger : Bool) → Lands n (top true linger l)
  unfolding top
  top-Lands linger =
      let round : List ℕ → Phase × Loop = λ r. elim r [
        | op ∷ ops ↦ (processes (op ∷ ops), record l { sync_op = [] })
        | [] ↦ after_ops true linger l
      ] in
      on_branches (Lands n) l.stop (ended, l) (round l.sync_op) (λ y. omega (arith, f))
        (λ y. elim l.sync_op as (λ r. Lands n (round r)) [
          | op ∷ ops ↦ omega (arith, f)
          | [] ↦ after_ops-Lands linger
        ])

idle_over-Lands :
    (failed : Bool) (n : ℕ) (l : Loop) → n ≡ one_if l.waiting → Lands n (idle_over failed l)
unfolding idle_over
idle_over-Lands failed n l f =
    let l1 = record l { nidles = (l.nidles + (2 ^ 32 - 1)) % 2 ^ 32 } in
    let is_ready : Bool = elim l.ev_ready [ [] ↦ false | e ∷ es ↦ true ] in
    on_branches (Lands n) failed (ended, l1)
      (if is_ready || l.stop then begin_handling l1 else look true l1) (λ y. omega (arith, f))
      (λ y.
        on_branches (Lands n) (is_ready || l.stop) (begin_handling l1) (look true l1)
          (λ z. begin-Lands n l1 f) (λ z. look-Lands n l1 f))

wait_over-Lands : (failed : Bool) (ready : List ℕ) (l : Loop) → Lands 0 (wait_over failed ready l)
unfolding wait_over
wait_over-Lands failed ready l =
    let l1 = record l { waiting = false; ev_ready = ready } in
    on_branches (Lands 0) failed (ended, l1) (begin_handling l1) (λ y. refl)
      (λ y. begin-Lands 0 l1 refl)

Step-Flagged : {s t : System} → Step s t → Flagged s → Flagged t
unfolding end_handling finish sync_call control_begin control_end stop_loop
Step-Flagged {s} (tops linger) f = top-Lands s.in_wait s.loop f linger
Step-Flagged {s} (ops_over linger) f = after_ops-Lands s.in_wait s.loop f linger
Step-Flagged {s} (idles_over failed) f = idle_over-Lands failed s.in_wait s.loop f
Step-Flagged {s} (waits_over failed ready h) f =
    let none_left : 0 ≡ s.in_wait - 1 = ground (arith, f) in
    subst (λ n. Lands n (wait_over failed ready s.loop)) none_left
      (wait_over-Lands failed ready s.loop)
Step-Flagged {s} takes f = still s.in_wait s.loop (take_ready s.loop) f (take_ready-waiting s.loop)
Step-Flagged {s} (handled failed once) f = no_waiter (failed || once)
  where
    no_waiter :
        (b : Bool) → s.in_wait + waiters (if b then ended else continues) ≡ one_if s.loop.waiting
    no_waiter true = omega (arith, f)
    no_waiter false = omega (arith, f)
Step-Flagged {s} finishes f =
    still s.in_wait s.loop (finish s.loop) f
      (wake-waiting (not (s.loop.nidles == 0) && not s.loop.waiting) s.loop)
Step-Flagged {s} (syncs op) f =
    still s.in_wait s.loop (sync_call op s.loop) f
      (interrupt-waiting (record s.loop { sync_op = op ∷ s.loop.sync_op }))
Step-Flagged {s} control_begins f =
    let l1 = record s.loop { nactives = (s.loop.nactives + 1) % 2 ^ 32 } in
    on_branches (λ (r : Bool × Loop). s.in_wait ≡ one_if r.1.waiting)
      ((s.loop.nactives == 0) && s.loop.waiting) (true, interrupt l1) (false, l1)
      (λ e. still s.in_wait s.loop (interrupt l1) f (interrupt-waiting l1)) (λ e. f)
Step-Flagged {s} control_ends f =
    let l1 = record s.loop { nactives = (s.loop.nactives + (2 ^ 32 - 1)) % 2 ^ 32 } in
    still s.in_wait s.loop (control_end s.loop) f
      (wake-waiting ((l1.nactives == 0) && not (s.loop.nidles == 0)) l1)
Step-Flagged {s} stops f =
    still s.in_wait s.loop (stop_loop true s.loop) f
      (interrupt-waiting (record s.loop { stop = true }))
Step-Flagged (changes n ready) f = f

flag_bound : (b : Bool) (n : ℕ) → n ≡ one_if b → n ≤ 1
flag_bound true n e = omega (arith, e)
flag_bound false n e = omega (arith, e)

-- In every run of threads of the library through the loop, with any calls by others in between but
-- `stop` with `false`, the flag EVQ_FLAG_WAITING is set just when a thread is in `evq_wait`, and
-- there is never more than one.
pub Reach-Flagged :
    {s t : System} → Reach s t → Flagged s → (t.in_wait ≡ one_if t.loop.waiting) × (t.in_wait ≤ 1)
Reach-Flagged {s} here f = (f, flag_bound s.loop.waiting s.in_wait f)
Reach-Flagged (next {t} {u} r st) f =
    let g = Step-Flagged st (Reach-Flagged r f).0 in (g, flag_bound u.loop.waiting u.in_wait g)

or_true : (b : Bool) → (b || true) ≡ true
or_true true = refl
or_true false = refl

-- With the flag set, a thread waits for a signal.
look_flagged :
    (l : Loop)
    → l.waiting ≡ true
    → look true l ≡ (idles, record l { nidles = (l.nidles + 1) % 2 ^ 32 })
unfolding look
look_flagged l e =
    let b : Bool = not (l.nactives == 0) in
    let test : (b || l.waiting) ≡ true = (λ i. b || e i) ∙ or_true b in
    (λ i.
      if test i
      then (idles, record l { nidles = (l.nidles + 1) % 2 ^ 32 })
      else (waits, record l { waiting = true }))

top_flagged :
    (linger : Bool) (l : Loop)
    → l.stop ≡ false
    → l.waiting ≡ true
    → l.ev_ready ≡ []
    → l.sync_op ≡ []
    → (not linger && l.nevents == 0) ≡ false
    → top true linger l ≡ (idles, record l { nidles = (l.nidles + 1) % 2 ^ 32 })
unfolding top after_ops
top_flagged linger l s w e q some_event =
    let round : List ℕ → Phase × Loop = λ r. elim r [
      | op ∷ ops ↦ (processes (op ∷ ops), record l { sync_op = [] })
      | [] ↦ after_ops true linger l
    ] in
    let rest : List ℕ → Phase × Loop = λ r. elim r [
      | x ∷ xs ↦ begin_handling l
      | [] ↦ if not linger && l.nevents == 0 then (ended, l) else look true l
    ] in
    (λ i. if s i then (ended, l) else round l.sync_op)
    ∙ ap round q
    ∙ ap rest e
    ∙ (λ i. if some_event i then (ended, l) else look true l)
    ∙ look_flagged l w

idle_flagged :
    (l : Loop) → l.stop ≡ false → l.waiting ≡ true → l.ev_ready ≡ [] → (idle_over false l).0 ≡ idles
unfolding idle_over
idle_flagged l s w e =
    let l1 = record l { nidles = (l.nidles + (2 ^ 32 - 1)) % 2 ^ 32 } in
    let is_ready : List ℕ → Bool = λ r. elim r [ [] ↦ false | x ∷ xs ↦ true ] in
    (λ i. (if is_ready (e i) || l.stop then begin_handling l1 else look true l1).0)
    ∙ (λ i. (if s i then begin_handling l1 else look true l1).0)
    ∙ ap (λ r. r.0) (look_flagged l1 w)

restarted :
    (linger : Bool) (l : Loop)
    → l.ev_ready ≡ []
    → l.sync_op ≡ []
    → (not linger && l.nevents == 0) ≡ false
    → ((top true linger (stop_loop false l)).0 ≡ idles)
      × ((idle_over false (top true linger (stop_loop false l)).1).0 ≡ idles)
unfolding stop_loop
restarted linger l e q some_event =
    let m : Loop = stop_loop false l in
    let turn = top_flagged linger m refl refl e q some_event in
    (
      ap (λ r. r.0) turn,
      ap (λ r. (idle_over false r.1).0) turn
          ∙ idle_flagged (record m { nidles = (m.nidles + 1) % 2 ^ 32 }) refl refl e,
    )

-- A call of `stop` that lets a stopped loop run again sets the flag EVQ_FLAG_WAITING, though
-- nobody is in `evq_wait`. A thread of the library that then runs the loop with nothing to do but
-- to wait for events does not wait for them: it waits for a signal of another thread, and does so
-- again after one.
pub restart_idles :
    (linger : Bool) (l : Loop)
    → l.ev_ready ≡ []
    → l.sync_op ≡ []
    → (not linger && l.nevents == 0) ≡ false
    → ((top true linger (stop_loop false (stop_loop true l))).0 ≡ idles)
      × ((idle_over false (top true linger (stop_loop false (stop_loop true l))).1).0 ≡ idles)
unfolding stop_loop
restart_idles linger l e q some_event =
    on_branches
      (λ (u : Loop).
        ((top true linger (stop_loop false u)).0 ≡ idles)
        × ((idle_over false (top true linger (stop_loop false u)).1).0 ≡ idles))
      l.waiting (record l { stop = true; signals = l.signals + 1 }) (record l { stop = true })
      (λ y. restarted linger (record l { stop = true; signals = l.signals + 1 }) e q some_event)
      (λ y. restarted linger (record l { stop = true }) e q some_event)
