-- ===== src/Timeout/Expire/Round.antt =====
-- What a round of `timeout_process` does to a queue
use luasys.Base.{
  ℕ, ◌≤◌, ◌≡◌, refl, sym, ◌∙◌, ap, subst, Bool, true, false, Bool-cases, Option, none, some, inl,
  inr, List, [], ◌∷◌, ◌++◌, length, ltb, if◌then◌else◌, append-nil,
}
use luasys.TaskList.Ring.{NotIn}
use luasys.Timeout.{Event, Queue, Timers, plus_int, to_long}
use luasys.Timeout.Expire.{expire, recycle, process_queue}
use luasys.Timeout.Linked.{first, last, All, All_map, SameLinks}
use luasys.Timeout.Moving.{IsQueue, IsQueue-frame}
use luasys.Timeout.Expire.Marked.{Marked, due, not_due, IsReady, expire-HasMarked}
use luasys.Timeout.Expire.Turned.{SameData, recycle-IsQueue, recycle-SameData}

-- The events `d` have become ready, with timeouts at `at`, and are behind `r`.
pub record IsTurned (s s' : Timers) (q at : ℕ) (ready ready' : Option ℕ) (r d : List ℕ)
    : Type 0 where
  pub queue : IsQueue s' q (r ++ d)
  pub head : ready' ≡ last ready d
  pub chain : IsReady s' ready d
  pub times : All (λ x. ((s'.event x).timeout_at ≡ at) × ((s'.event x).timed_out ≡ true)) d
  pub others : (x : ℕ) → NotIn x d → (s'.event x).timeout_at ≡ (s.event x).timeout_at

due-append :
    (s : Timers) (timeout : ℕ) (xs : List ℕ) → due s timeout xs ++ not_due s timeout xs ≡ xs
due-append s timeout [] = refl
due-append s timeout (x ∷ xs) = elim (Bool-cases (ltb (to_long (s.event x).timeout_at) timeout)) [
  | inl h ↦
      ap
        (λ b.
          (if b then x ∷ due s timeout xs else []) ++ (if b then not_due s timeout xs else x ∷ xs))
        h
      ∙ ap (λ l. x ∷ l) (due-append s timeout xs)
  | inr h ↦
      ap
        (λ b.
          (if b then x ∷ due s timeout xs else []) ++ (if b then not_due s timeout xs else x ∷ xs))
        h
]

IsReady-frame :
    (s s' : Timers) (ready : Option ℕ) (xs : List ℕ)
    → ((x : ℕ) → SameData s s' x)
    → IsReady s ready xs
    → IsReady s' ready xs
IsReady-frame s s' ready [] h c = tt
IsReady-frame s s' ready (x ∷ xs) h (a, c) = ((h x).2 ∙ a, IsReady-frame s s' (some x) xs h c)

times_frame :
    (s s' : Timers) (at : ℕ) (xs : List ℕ)
    → ((x : ℕ) → SameData s s' x)
    → All (λ x. ((s.event x).timeout_at ≡ at) × ((s.event x).timed_out ≡ true)) xs
    → All (λ x. ((s'.event x).timeout_at ≡ at) × ((s'.event x).timed_out ≡ true)) xs
times_frame s s' at [] h c = tt
times_frame s s' at (x ∷ xs) h ((a, b), c) =
    (((h x).0 ∙ a, (h x).1 ∙ b), times_frame s s' at xs h c)

Marked-IsQueue :
    (s s' : Timers) (q at h : ℕ) (ready : Option ℕ) (d r : List ℕ)
    → IsQueue s q ((h ∷ d) ++ r)
    → Marked s s' at ready (h ∷ d)
    → IsQueue s' q ((h ∷ d) ++ r)
Marked-IsQueue s s' q at h ready d r k m =
    IsQueue-frame s s' q ((h ∷ d) ++ r) (All_map (SameLinks s s') ((h ∷ d) ++ r) m.links)
      (ap (λ (z : Queue). z.ev_head) (m.queue q)) (ap (λ (z : Queue). z.ev_tail) (m.queue q)) k

-- `timeout_process` on a queue with first event `h`
abbrev at_head : (f q timeout now : ℕ) → Option ℕ → Timers → (h : ℕ) → Option ℕ × Timers
at_head f q timeout now ready s h =
    let (rest, ready', s') = expire f h timeout (plus_int now (s.queue q).msec) ready s in
    if ltb (to_long (s.event h).timeout_at) timeout
    then (ready', elim rest [ none ↦ s' | some ev ↦ recycle q ev h ready' s' ])
    else (ready, s)

-- Whether the first event is due or not
choose-IsTurned :
    (s : Timers) (q at : ℕ) (ready ready' rest : Option ℕ) (s' : Timers) (h : ℕ) (xs d r : List ℕ)
    → IsTurned s
        (elim rest [ none ↦ s' | some ev ↦ recycle q ev h ready' s' ])
        q
        at
        ready
        ready'
        r
        (h ∷ d)
    → IsTurned s s q at ready ready (h ∷ xs) []
    → (b : Bool)
    → let x : Option ℕ × Timers =
        if b
        then (ready', elim rest [ none ↦ s' | some ev ↦ recycle q ev h ready' s' ])
        else (ready, s) in
      IsTurned s x.1 q at ready x.0 (if b then r else h ∷ xs) (if b then h ∷ d else [])
choose-IsTurned s q at ready ready' rest s' h xs d r y n true = y
choose-IsTurned s q at ready ready' rest s' h xs d r y n false = n

-- After the inner loop has marked `h` and `d`: either these are all, or `r` is before them.
Marked-IsTurned :
    (s s' : Timers) (q at h : ℕ) (ready ready' rest : Option ℕ) (d r : List ℕ)
    → IsQueue s q ((h ∷ d) ++ r)
    → rest ≡ first r none
    → ready' ≡ last (some h) d
    → Marked s s' at ready (h ∷ d)
    → IsTurned s
        (elim rest [ none ↦ s' | some ev ↦ recycle q ev h ready' s' ])
        q
        at
        ready
        ready'
        r
        (h ∷ d)
Marked-IsTurned s s' q at h ready ready' rest d [] k e f m =
    subst
      (λ o.
        IsTurned s (elim o [ none ↦ s' | some ev ↦ recycle q ev h ready' s' ]) q at ready ready' []
          (h ∷ d))
      (sym e)
      (record {
        queue =
            subst (IsQueue s' q) (append-nil (h ∷ d)) (Marked-IsQueue s s' q at h ready d [] k m);
        head = f;
        chain = m.chain;
        times = m.times;
        others = λ x n. ap (λ (z : Event). z.timeout_at) (m.others x n);
      })
Marked-IsTurned s s' q at h ready ready' rest d (y ∷ ys) k e f m =
    let s2 = recycle q y h ready' s' in
    let kept : (x : ℕ) → SameData s' s2 x = λ x. recycle-SameData q y h x ready' s' in
    let turned = recycle-IsQueue s' q h y d ys (Marked-IsQueue s s' q at h ready d (y ∷ ys) k m) in
    subst
      (λ o.
        IsTurned s (elim o [ none ↦ s' | some ev ↦ recycle q ev h ready' s' ]) q at ready ready'
          (y ∷ ys) (h ∷ d))
      (sym e)
      (record {
        queue = subst (λ o. IsQueue (recycle q y h o s') q ((y ∷ ys) ++ h ∷ d)) (sym f) turned;
        head = f;
        chain = IsReady-frame s' s2 ready (h ∷ d) kept m.chain;
        times = times_frame s' s2 at (h ∷ d) kept m.times;
        others = λ x n. (kept x).0 ∙ ap (λ (z : Event). z.timeout_at) (m.others x n);
      })

nothing-IsTurned :
    (s : Timers) (q at : ℕ) (ready : Option ℕ) (xs : List ℕ)
    → IsQueue s q xs
    → IsTurned s s q at ready ready xs []
nothing-IsTurned s q at ready xs k = record {
  queue = subst (IsQueue s q) (sym (append-nil xs)) k;
  head = refl;
  chain = tt;
  times = tt;
  others = λ x n. refl;
}

process_queue-none :
    (f q timeout now : ℕ) (ready : Option ℕ) (s : Timers)
    → (s.queue q).ev_head ≡ none
    → process_queue f q timeout now ready s ≡ (ready, s)
unfolding process_queue
process_queue-none f q timeout now ready s e =
    ap
      (λ (o : Option ℕ). elim o [
        | none ↦ (ready, s)
        | some head ↦ at_head f q timeout now ready s head
      ])
      e

process_queue-some :
    (f q timeout now h : ℕ) (ready : Option ℕ) (s : Timers)
    → (s.queue q).ev_head ≡ some h
    → process_queue f q timeout now ready s ≡ at_head f q timeout now ready s h
unfolding process_queue
process_queue-some f q timeout now h ready s e =
    ap
      (λ (o : Option ℕ). elim o [
        | none ↦ (ready, s)
        | some head ↦ at_head f q timeout now ready s head
      ])
      e

-- A round of `timeout_process` over a queue makes the events ready whose timeouts, as numbers with
-- a sign, are before `timeout`, from the first up to one whose timeout is not: they come to the
-- end of the queue, in order, behind the others, with their next timeouts, and to the front of the
-- ready events, the last one first. The timeouts of the others stay. The queue has as many events
-- as there is fuel, or fewer.
pub process_queue_lem :
    (s : Timers) (f q timeout now : ℕ) (ready : Option ℕ) (xs : List ℕ)
    → IsQueue s q xs
    → length xs ≤ f
    → let (ready', s') = process_queue f q timeout now ready s in
      IsTurned s s' q
        (plus_int now (s.queue q).msec)
        ready
        ready'
        (not_due s timeout xs)
        (due s timeout xs)
process_queue_lem s f q timeout now ready [] k le =
    subst
      (λ (x : Option ℕ × Timers). IsTurned s x.1 q (plus_int now (s.queue q).msec) ready x.0 [] [])
      (sym (process_queue-none f q timeout now ready s k.head))
      (nothing-IsTurned s q (plus_int now (s.queue q).msec) ready [] k)
process_queue_lem s f q timeout now ready (h ∷ xs) k le =
    let at : ℕ = plus_int now (s.queue q).msec in
    let (a, b, m) = expire-HasMarked xs f h timeout at ready none s k.linked k.distinct le in
    let (rest, ready', s') = expire f h timeout at ready s in
    let whole : IsQueue s q ((h ∷ due s timeout xs) ++ not_due s timeout xs) =
      subst (λ l. IsQueue s q (h ∷ l)) (sym (due-append s timeout xs)) k in
    subst
      (λ (x : Option ℕ × Timers).
        IsTurned s x.1 q at ready x.0 (not_due s timeout (h ∷ xs)) (due s timeout (h ∷ xs)))
      (sym (process_queue-some f q timeout now h ready s k.head))
      (choose-IsTurned s q at ready ready' rest s' h xs (due s timeout xs) (not_due s timeout xs)
        (Marked-IsTurned s s' q at h ready ready' rest (due s timeout xs) (not_due s timeout xs)
          whole a b m)
        (nothing-IsTurned s q at ready (h ∷ xs) k) (ltb (to_long (s.event h).timeout_at) timeout))
