-- ===== src/Timeout/Kept.antt =====
-- `timeout_reset` and `timeout_add` put an event at the end of its queue.
use luasys.Base.{
  ℕ, ◌≡◌, ◌≢◌, refl, sym, ◌∙◌, ap, subst, Option, none, some, List, [], ◌∷◌, ◌++◌, arith,
  append-nil,
}
use luasys.TaskList.Ring.{NotIn}
use luasys.Timeout.{Timers, set_event, set_queue, link_next, link_prev, reset, enter, plus_int}
use luasys.Timeout.Linked.{last, last-NotIn, All-NotIn, All_map, SameLinks}
use luasys.Timeout.Moving.{
  IsQueue, IsQueue-links, Front-frame, Rest-frame, unlink-IsQueue, append-IsQueue, IsQueue-frame,
  middle-NotIn,
}

-- `timeout_reset` of an event before `n` and after `p`, in the state `s` with the new timeout
abbrev moved : (ev q n : ℕ) → Option ℕ → Timers → Timers
moved ev q n p s =
    let s1 = link_next p (some n) q s in
    let s2 = set_event n (record (s1.event n) { prev = p }) s1 in
    let tail = (s2.queue q).ev_tail in
    let s3 = set_event ev (record (s2.event ev) { next = none; prev = tail }) s2 in
    let s4 = link_next tail (some ev) q s3 in
    set_queue q (record (s4.queue q) { ev_tail = some ev }) s4

abbrev later : (ev q now : ℕ) → Timers → Timers
later ev q now s =
    set_event ev (record (s.event ev) { timeout_at = plus_int now (s.queue q).msec }) s

reset-later :
    (ev q now : ℕ) (s : Timers) → (s.event ev).next ≡ none → reset ev q now s ≡ later ev q now s
unfolding reset
reset-later ev q now s e =
    let s0 = later ev q now s in
    ap (λ (o : Option ℕ). elim o [ none ↦ s0 | some n ↦ moved ev q n (s.event ev).prev s0 ]) e

reset-moved :
    (ev q now n : ℕ) (s : Timers)
    → (s.event ev).next ≡ some n
    → reset ev q now s ≡ moved ev q n (s.event ev).prev (later ev q now s)
unfolding reset
reset-moved ev q now n s e =
    let s0 = later ev q now s in
    ap (λ (o : Option ℕ). elim o [ none ↦ s0 | some n ↦ moved ev q n (s.event ev).prev s0 ]) e

-- An assignment of `next` to another event
link_next-other :
    (o m : Option ℕ) (q ev : ℕ) (s : Timers)
    → o ≢ some ev
    → (((link_next o m q s).event ev).prev ≡ (s.event ev).prev)
      × (((link_next o m q s).event ev).next ≡ (s.event ev).next)
link_next-other none m q ev s h = (refl, refl)
link_next-other (some a) m q ev s h =
    let ne : ev ≢ a = λ e. h (ap some (sym e)) in (ground arith, ground arith)

-- The second half of `timeout_reset`: an event that is in no list becomes the last of the queue.
moved-IsQueue :
    (ev q : ℕ) (s : Timers) (xs : List ℕ)
    → IsQueue s q xs
    → NotIn ev xs
    → let tail = (s.queue q).ev_tail in
      let s3 = set_event ev (record (s.event ev) { next = none; prev = tail }) s in
      let s4 = link_next tail (some ev) q s3 in
      IsQueue (set_queue q (record (s4.queue q) { ev_tail = some ev }) s4) q (xs ++ ev ∷ [])
moved-IsQueue ev q s xs k out =
    let P : Option ℕ → Type 0 = λ tail.
      let s3 = set_event ev (record (s.event ev) { next = none; prev = tail }) s in
      let s4 = link_next tail (some ev) q s3 in
      IsQueue (set_queue q (record (s4.queue q) { ev_tail = some ev }) s4) q (xs ++ ev ∷ []) in
    let tail = last none xs in
    let s3 = set_event ev (record (s.event ev) { next = none; prev = tail }) s in
    let s4 = link_next tail (some ev) q s3 in
    let k3 =
      IsQueue-frame s s3 q xs
        (All-NotIn (SameLinks s s3) ev xs out (λ x ne. (ground arith, ground arith))) refl refl k in
    let (a, b) = link_next-other tail (some ev) q ev s3 (last-NotIn ev xs out) in
    subst P (sym k.tail) (
      append-IsQueue s3 (set_queue q (record (s4.queue q) { ev_tail = some ev }) s4) q ev xs k3 out
        (ground arith) (ground arith) (λ x _. (refl, refl)) (a ∙ ground arith) (b ∙ ground arith))

-- Resetting the timeout of an event moves it to the end of its queue.
pub reset_lem :
    (s : Timers) (q ev now : ℕ) (xs ys : List ℕ)
    → IsQueue s q (xs ++ ev ∷ ys)
    → IsQueue (reset ev q now s) q ((xs ++ ys) ++ ev ∷ [])
reset_lem s q ev now xs [] k =
    let (f, a, b, r) = IsQueue-links s q ev xs [] k in
    let s0 = later ev q now s in
    let same : (x : ℕ) → SameLinks s s0 x = λ x. (ground arith, ground arith) in
    let k0 =
      IsQueue-frame s s0 q (xs ++ ev ∷ []) (All_map (SameLinks s s0) (xs ++ ev ∷ []) same) refl refl
        k in
    subst (λ x. IsQueue x q ((xs ++ []) ++ ev ∷ [])) (sym (reset-later ev q now s b))
      (subst (λ l. IsQueue s0 q (l ++ ev ∷ [])) (sym (append-nil xs)) k0)
reset_lem s q ev now xs (y ∷ ys) k =
    let (f, a, b, r) = IsQueue-links s q ev xs (y ∷ ys) k in
    let s0 = later ev q now s in
    let p = last none xs in
    let whole : reset ev q now s ≡ moved ev q y p s0 =
      reset-moved ev q now y s b ∙ ap (λ x. moved ev q y x s0) a in
    let same : (x : ℕ) → SameLinks s s0 x = λ x. (ground arith, ground arith) in
    let joined =
      unlink-IsQueue s0 q ev xs (y ∷ ys) k.distinct (Front-frame s s0 q xs (some ev) same refl f)
        (Rest-frame s s0 q (some ev) (y ∷ ys) same refl r) in
    subst (λ x. IsQueue x q ((xs ++ y ∷ ys) ++ ev ∷ [])) (sym whole)
      (moved-IsQueue ev q (link_prev (some y) p q (link_next p (some y) q s0)) (xs ++ y ∷ ys) joined
        (middle-NotIn ev xs (y ∷ ys) k.distinct))

-- `timeout_add` to queue `q`, the branch that is taken when the queue was found
abbrev pub add_here : (ev q msec now : ℕ) → Timers → Timers
add_here ev q msec now s =
    enter ev q msec now (s.queue q).ev_tail (link_next (s.queue q).ev_tail (some ev) q s)

-- An event that is in no queue becomes the last of the queue it is added to.
pub add_here-IsQueue :
    (s : Timers) (ev q msec now : ℕ) (xs : List ℕ)
    → IsQueue s q xs
    → NotIn ev xs
    → IsQueue (add_here ev q msec now s) q (xs ++ ev ∷ [])
unfolding enter
add_here-IsQueue s ev q msec now xs k out =
    let tail = last none xs in
    let s1 = link_next tail (some ev) q s in
    subst (λ o. IsQueue (enter ev q msec now o (link_next o (some ev) q s)) q (xs ++ ev ∷ []))
      (sym k.tail)
      (append-IsQueue s (enter ev q msec now tail s1) q ev xs k out (ground arith) (ground arith)
        (λ x ne. (ground arith, ground arith)) (ground arith) (ground arith))
