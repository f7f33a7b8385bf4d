-- ===== src/Sched/Wake.antt =====
-- What suspends and what wakes a task, with its flags in an intermediate state.
use luasys.Base.{
  ℕ, ◌≤◌, ◌<◌, ◌≡◌, refl, ◌≢◌, Bool, true, false, List, [], ◌∷◌, ◌++◌, ◌==◌, ltb, arith, sym, subst,
  ◌∙◌, Bool-cases, inl, inr,
}
use luasys.TaskList.{Task, set_task}
use luasys.TaskList.Links.{list_add-state}
use luasys.TaskList.Times.{times, erase, times-erase}
use luasys.Sched.{Scheduler, add_active, update}
use luasys.Sched.Keeps.{Kept}
use luasys.Sched.Moves.{wake-Placed, suspend-Placed, write-Placed, Flags-set, one_if_le}
use luasys.Sched.Owned.{core, Places, Placed, Fits, Fits-state, set_task-other}

-- A task that is run, marked as suspended
pub suspended-Kept :
    (id : ℕ) (t : Task) (qs : List ℕ) (s : Scheduler) (rs : List ℕ)
    → 1 ≤ times id rs
    → t.next_id ≡ (s.task id).next_id
    → t.prev_id ≡ (s.task id).prev_id
    → Fits t true
    → Kept qs s rs
    → Kept qs (update id t s) (erase id rs)
suspended-Kept id t qs s rs h n p fit (fs, ws, (o, f)) =
    let pl : Places = record { active = qs; free = fs; running = rs; suspended = ws } in
    (
      fs,
      id ∷ ws,
      (
        suspend-Placed id (record (core s) { task = set_task id t s.task }) pl h
            (write-Placed id (core s) pl t n p o),
        Flags-set id t s.task s.buf_idx ws (id ∷ ws) (subst (λ b. Fits t b) (ground arith) fit)
            (λ j ne. ground (arith, ne)) (λ x l ne. f x l),
      ),
    )

-- As `Kept`, but for the flags of the task `id`, which is still counted as suspended (`Waking`), or
-- is active again (`Woken`).
abbrev pub Waking : ℕ → List ℕ → Scheduler → List ℕ → Type 0
Waking id qs s rs =
    (fs : List ℕ) × (ws : List ℕ) × Placed (core s)
      (record { active = qs; free = fs; running = rs; suspended = ws })
    × ((x : ℕ) → x < s.buf_idx → x ≢ id → Fits (s.task x) (ltb 0 (times x ws)))
    × (1 ≤ times id ws)

abbrev pub Woken : ℕ → List ℕ → Scheduler → List ℕ → Type 0
Woken id qs s rs =
    (fs : List ℕ) × (ws : List ℕ) × Placed (core s)
      (record { active = qs; free = fs; running = rs; suspended = ws })
    × ((x : ℕ) → x < s.buf_idx → x ≢ id → Fits (s.task x) (ltb 0 (times x ws)))
    × (times id ws ≡ 0)

module _ (id : ℕ) (qs : List ℕ) (s : Scheduler) (rs : List ℕ) where
  pub Kept-Waking : id < s.buf_idx → (s.task id).suspended ≡ true → Kept qs s rs → Waking id qs s rs
  Kept-Waking l e (fs, ws, (o, f)) =
      (fs, ws, o, (λ x lx ne. f x lx), ground (arith, sym (f id l).0 ∙ e))

  pub write-Waking :
      (t : Task)
      → t.next_id ≡ (s.task id).next_id
      → t.prev_id ≡ (s.task id).prev_id
      → Waking id qs s rs
      → Waking id qs (update id t s) rs
  write-Waking t n p (fs, ws, o, f, h) = (
    fs,
    ws,
    write-Placed id (core s) (record { active = qs; free = fs; running = rs; suspended = ws }) t n p
        o,
    (λ x lx ne.
        subst (λ u. Fits u (ltb 0 (times x ws))) (sym (set_task-other id t s.task x ne))
          (f x lx ne)),
    h,
  )

  pub wake-Woken : Waking id qs s rs → Woken id (qs ++ id ∷ []) (add_active id s) rs
  wake-Woken (fs, ws, o, f, h) =
      let p : Places = record { active = qs; free = fs; running = rs; suspended = ws } in
      (
        fs,
        erase id ws,
        wake-Placed id (core s) p h o,
        (λ x lx ne.
            let same : times x (erase id ws) ≡ times x ws = ground (arith, times-erase ws id x h) in
            subst (λ n. Fits ((add_active id s).task x) (ltb 0 n)) (sym same)
              (Fits-state (s.task x) ((add_active id s).task x) (ltb 0 (times x ws))
                (list_add-state id s.active_task_id s.task x) (f x lx ne))),
        ground (arith, times-erase ws id id h, o.once id, one_if_le (ltb id s.buf_idx)),
      )

  pub write-Woken :
      (t : Task)
      → t.next_id ≡ (s.task id).next_id
      → t.prev_id ≡ (s.task id).prev_id
      → Fits t false
      → Woken id qs s rs
      → Kept qs (update id t s) rs
  write-Woken t n p fit (fs, ws, o, f, z) = (
    fs,
    ws,
    (
      write-Placed id (core s) (record { active = qs; free = fs; running = rs; suspended = ws }) t n
          p o,
      Flags-set id t s.task s.buf_idx ws ws (subst (λ b. Fits t b) (ground (arith, z)) fit)
          (λ j ne. refl) f,
    ),
  )

  pub Woken-Kept : Fits (s.task id) false → Woken id qs s rs → Kept qs s rs
  Woken-Kept fit (fs, ws, o, f, z) = (
    fs,
    ws,
    (
      o,
      (λ x lx. elim (Bool-cases (x == id)) [
        | inl e ↦
            subst (λ j. Fits (s.task j) (ltb 0 (times j ws))) (ground (arith, e))
              (subst (λ b. Fits (s.task id) b) (ground (arith, z)) fit)
        | inr e ↦ f x lx (λ q. ground (arith, e, q))
      ]),
    ),
  )

pub Kept-Fits :
    (id : ℕ) (qs : List ℕ) (s : Scheduler) (rs : List ℕ)
    → id < s.buf_idx
    → Kept qs s rs
    → (b : Bool) × Fits (s.task id) b
Kept-Fits id qs s rs l (fs, ws, (o, f)) = (ltb 0 (times id ws), f id l)
