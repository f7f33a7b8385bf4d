-- ===== src/Sched/Keeps.antt =====
-- Every call of a scheduler's methods and every round of its loop keeps each task in one place.
use luasys.Base.{
  ℕ, ◌+◌, ◌≤◌, ◌<◌, ◌^◌, ◌%◌, ◌≡◌, refl, ◌≢◌, Bool, true, false, Option, none, some, List, [], ◌∷◌,
  ◌++◌, ◌==◌, if◌then◌else◌, ltb, arith, sym, ap, subst, ◌∙◌, inl, inr, Option-cases, not, ◌&&◌,
  ◌⊎◌, ◌*◌, append-nil,
}
use luasys.TaskList.{Tasks, set_task, list_add}
use luasys.TaskList.Ring.{IsRing}
use luasys.TaskList.Links.{state, list_add-state, list_del-state}
use luasys.TaskList.Times.{times, erase}
use luasys.Sched.{
  Scheduler, put, task_alloc, alloc_end, del_free, insert, new_task, signal, add_active, update,
  buf_min,
}
use luasys.Sched.Moves.{
  requeue-Placed, reuse-Placed, fresh-Placed, init-Placed, Flags-state, Flags-set, one_if_le,
}
use luasys.Sched.Owned.{Core, core, Places, Placed, Flags, Owned, Fits, core_add, set_task_self}
use luasys.Sched.Steps.{after_put}

-- Each task is in one place, with these active tasks, in the list's order, and these running ones.
abbrev pub Kept : List ℕ → Scheduler → List ℕ → Type 0
Kept qs s rs =
    (fs : List ℕ) × (ws : List ℕ) × Owned (core s)
      (record { active = qs; free = fs; running = rs; suspended = ws })

-- So it is, with further active tasks at the end.
abbrev pub Grown : List ℕ → Scheduler → List ℕ → Type 0
Grown qs s rs = (new : List ℕ) × Kept (qs ++ new) s rs

pub Kept-Grown : (qs : List ℕ) (s : Scheduler) (rs : List ℕ) → Kept qs s rs → Grown qs s rs
Kept-Grown qs s rs k = ([], subst (λ l. Kept l s rs) (sym (append-nil qs)) k)

pub Kept-core :
    (qs : List ℕ) (s t : Scheduler) (rs : List ℕ) → core t ≡ core s → Kept qs s rs → Kept qs t rs
Kept-core qs s t rs e (fs, ws, o) = (
  fs,
  ws,
  subst (λ c. Owned c (record { active = qs; free = fs; running = rs; suspended = ws })) (sym e) o,
)

pub core-signal : (b : Bool) (s : Scheduler) → core (if b then signal s else s) ≡ core s
core-signal true s = refl
core-signal false s = refl

pub erase-head : (x : ℕ) (xs : List ℕ) → erase x (x ∷ xs) ≡ xs
erase-head x xs = ground arith

pub head-in : (x : ℕ) (xs : List ℕ) → 1 ≤ times x (x ∷ xs)
head-in x xs = ground arith

insert-core :
    (co id : ℕ) (s : Scheduler)
    → core (insert co id s).2
      ≡ record (core_add id (record (core s) { task = set_task id (new_task co) s.task })) {
        ntasks = (s.ntasks + 1) % 2 ^ 32;
      }
unfolding insert
insert-core co id s =
    let is_empty : Bool = elim s.active_task_id [ none ↦ true | some h ↦ false ] in
    let s2 = add_active id (update id (new_task co) s) in
    let s3 = record s2 { ntasks = (s2.ntasks + 1) % 2 ^ 32 } in
    core-signal (is_empty && not (s3.nwaiters == 0)) s3

new_task-Fits : (co : ℕ) (b : Bool) → b ≡ false → Fits (new_task co) b
new_task-Fits co b e = (sym e, λ h. refl, λ h. refl)

-- A task that was just allocated becomes the last of the active ones.
insert-Kept :
    (co id : ℕ) (s : Scheduler) (qs fs rs ws : List ℕ)
    → Placed
        (record (core s) { ntasks = (s.ntasks + 1) % 2 ^ 32 })
        (record { active = qs; free = fs; running = id ∷ rs; suspended = ws })
    → ((x : ℕ) → x < s.buf_idx → x ≢ id → Fits (s.task x) (ltb 0 (times x ws)))
    → Kept (qs ++ id ∷ []) (insert co id s).2 rs
insert-Kept co id s qs fs rs ws o f =
    let c1 : Core = record (core s) { ntasks = (s.ntasks + 1) % 2 ^ 32 } in
    let p : Places = record { active = qs; free = fs; running = id ∷ rs; suspended = ws } in
    let ts : Tasks = set_task id (new_task co) s.task in
    let c2 : Core = record c1 { task = ts } in
    let placed : Placed (core_add id c2)
        (record p { active = qs ++ id ∷ []; running = erase id (id ∷ rs) }) =
      requeue-Placed id c2 p (head-in id rs)
        (init-Placed id c1 p (new_task co) (head-in id rs) o) in
    let new : ltb 0 (times id ws) ≡ false =
      ground (arith, o.once id, one_if_le (ltb id s.buf_idx)) in
    let flags : Flags ts s.buf_idx ws =
      Flags-set id (new_task co) s.task s.buf_idx ws ws (new_task-Fits co (ltb 0 (times id ws)) new)
        (λ j n. refl) f in
    (
      fs,
      ws,
      subst
          (λ c.
            Owned c (record { active = qs ++ id ∷ []; free = fs; running = rs; suspended = ws }))
          (sym (insert-core co id s))
          (
            subst
                (λ l.
                  Placed (core_add id c2)
                    (record { active = qs ++ id ∷ []; free = fs; running = l; suspended = ws }))
                (erase-head id rs) placed,
            Flags-state ts (list_add id s.active_task_id ts).1 s.buf_idx ws
                (list_add-state id s.active_task_id ts) flags,
          ),
    )

no-head : (ts : Tasks) (head : Option ℕ) (xs : List ℕ) → head ≡ none → IsRing ts head xs → xs ≡ []
no-head ts head [] e r = refl
no-head ts head (x ∷ xs) e r = absurd (cc)

pub head-first :
    (ts : Tasks) (head : Option ℕ) (xs : List ℕ) (a : ℕ)
    → head ≡ some a
    → IsRing ts head xs
    → (ys : List ℕ) × (xs ≡ a ∷ ys)
head-first ts head [] a e r = absurd (cc)
head-first ts head (x ∷ xs) a e r = (xs, ap (λ y. y ∷ xs) (cc))

module _ (m : Bool) (s : Scheduler) where
  alloc-reuse : (id : ℕ) → s.free_task_id ≡ some id → task_alloc m s ≡ some (id, del_free id s)
  unfolding task_alloc
  alloc-reuse id e =
      ap (λ (o : Option ℕ). elim o [ some i ↦ some (i, del_free i s) | none ↦ alloc_end m s ]) e

  alloc-none : s.free_task_id ≡ none → task_alloc m s ≡ alloc_end m s
  unfolding task_alloc
  alloc-none e =
      ap (λ (o : Option ℕ). elim o [ some i ↦ some (i, del_free i s) | none ↦ alloc_end m s ]) e

  abbrev inserted : ℕ → Option (ℕ × Scheduler) → Option (ℕ × Bool × Scheduler)
  inserted co o = elim o [ none ↦ none | some (i, u) ↦ some (insert co i u) ]

  put-alloc :
      (co : ℕ) (o : Option (ℕ × Scheduler)) → task_alloc m s ≡ o → put m co s ≡ inserted co o
  unfolding put
  put-alloc co o e = ap (inserted co) e

-- With no free task, the one at the end of the buffer is taken, or there is no memory.
abbrev Fresh : Bool → Scheduler → Option (ℕ × Scheduler) → Type 0
Fresh m s o =
    ((o ≡ none) × (m ≡ false) × (s.buf_idx ≡ s.buf_max))
    ⊎ ((b : ℕ) × (s.buf_idx + 1 ≤ b)
        × (b < 2 ^ 31)
        × (o ≡ some (s.buf_idx, record s { buf_max = b; buf_idx = s.buf_idx + 1 })))

abbrev grown : Scheduler → ℕ
grown s = if s.buf_max == 0 then buf_min else s.buf_max * 2

end_tests :
    (s : Scheduler) (full m : Bool)
    → (full ≡ false → s.buf_idx + 1 ≤ s.buf_max)
    → (full ≡ true → s.buf_idx ≡ s.buf_max)
    → s.buf_idx ≤ s.buf_max
    → s.buf_max < 2 ^ 30
    → Fresh m s (
        if full
        then (if m
            then some (s.buf_idx, record s { buf_max = grown s; buf_idx = s.buf_idx + 1 })
            else none)
        else some (s.buf_idx, record s { buf_idx = s.buf_idx + 1 }))
end_tests s false m h g le lt = inr (s.buf_max, h refl, omega arith, refl)
end_tests s true false h g le lt = inl (refl, refl, g refl)
end_tests s true true h g le lt = inr (grown s, ground arith, ground arith, refl)

alloc_end_lem :
    (m : Bool) (s : Scheduler)
    → s.buf_idx ≤ s.buf_max
    → s.buf_max < 2 ^ 30
    → Fresh m s (alloc_end m s)
unfolding alloc_end
alloc_end_lem m s h lt =
    end_tests s (s.buf_idx == s.buf_max) m (λ q. ground (arith, q)) (λ q. ground (arith, q)) h lt

insert-task : (co id : ℕ) (s : Scheduler) → ((insert co id s).2.task id).co ≡ co
insert-task co id s =
    let ts : Tasks = set_task id (new_task co) s.task in
    ap (λ c. (c.task id).co) (insert-core co id s)
    ∙ ap (λ t. t.co)
        (list_add-state id s.active_task_id ts id
          ∙ ap state (set_task_self id (new_task co) s.task))

-- What `put` comes to: an error when there is no memory for a new task, and else a task that was in
-- use by nobody and is now the last of the active ones.
abbrev pub PutResult :
    Bool → ℕ → List ℕ → Scheduler → List ℕ → Option (ℕ × Bool × Scheduler) → Type 0
PutResult m co qs s rs none = (m ≡ false) × (s.free_task_id ≡ none) × (s.buf_idx ≡ s.buf_max)
PutResult m co qs s rs (some (id, w, s1)) =
    (times id qs ≡ 0) × (times id rs ≡ 0) × ((s1.task id).co ≡ co) × Kept (qs ++ id ∷ []) s1 rs

-- `sched_put` on a scheduler whose buffer may still be doubled: it fails only when a larger buffer is
-- needed and there is no memory for one; else the task with the returned id was neither active nor
-- run, has the given coroutine, and is the last of the active tasks, behind those that were active,
-- and each task of the buffer is still in one place.
pub put-PutResult :
    (m : Bool) (co : ℕ) (qs : List ℕ) (s : Scheduler) (rs : List ℕ)
    → s.buf_max < 2 ^ 30
    → Kept qs s rs
    → PutResult m co qs s rs (put m co s)
unfolding insert
put-PutResult m co qs s rs lt (fs, ws, (o, f)) =
    let p : Places = record { active = qs; free = fs; running = rs; suspended = ws } in
    elim (Option-cases s.free_task_id) [
      | inr (id, e) ↦
          let (bs, split) = head-first s.task s.free_task_id fs id e o.rings.1 in
          let s1 : Scheduler = del_free id s in
          subst (PutResult m co qs s rs)
            (sym (put-alloc m s co (some (id, s1)) (alloc-reuse m s id e)))
            (
              ground (arith, o.once id, ap (times id) split, one_if_le (ltb id s.buf_idx)),
              ground (arith, o.once id, ap (times id) split, one_if_le (ltb id s.buf_idx)),
              insert-task co id s1,
              insert-Kept co id s1 qs bs rs ws (reuse-Placed id (core s) p bs split o) (λ x l ne.
                  Flags-state s.task s1.task s.buf_idx ws (list_del-state id s.free_task_id s.task)
                    f x l),
            )
      | inl e ↦ elim (alloc_end_lem m s o.room lt) [
        | inl (z, no_memory, full) ↦
            subst (PutResult m co qs s rs) (sym (put-alloc m s co none (alloc-none m s e ∙ z)))
              (no_memory, e, full)
        | inr (b, hb, lb, z) ↦
            let s1 : Scheduler = record s { buf_max = b; buf_idx = s.buf_idx + 1 } in
            let id : ℕ = s.buf_idx in
            subst (PutResult m co qs s rs)
              (sym (put-alloc m s co (some (id, s1)) (alloc-none m s e ∙ z)))
              (
                ground (arith, o.once s.buf_idx),
                ground (arith, o.once s.buf_idx),
                insert-task co id s1,
                insert-Kept co id s1 qs fs rs ws (fresh-Placed id (core s) p b hb lb o)
                    (λ x l ne. f x (omega arith)),
              )
      ]
    ]

pub PutResult-Grown :
    (m : Bool) (co : ℕ) (qs : List ℕ) (s : Scheduler) (rs : List ℕ)
    (o : Option (ℕ × Bool × Scheduler))
    → Kept qs s rs
    → PutResult m co qs s rs o
    → Grown qs (after_put o s) rs
PutResult-Grown m co qs s rs none k r = Kept-Grown qs s rs k
PutResult-Grown m co qs s rs (some (id, w, s1)) k (a, b, c, k1) = (id ∷ [], k1)
