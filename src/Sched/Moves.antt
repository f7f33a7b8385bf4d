-- ===== src/Sched/Moves.antt =====
-- What the assignments to the lists, the flags and the counts of a scheduler do to the places of its
-- tasks.
use luasys.Base.{
  ℕ, ◌+◌, ◌-◌, ◌≤◌, ◌<◌, ◌^◌, ◌%◌, ◌≡◌, refl, ◌≢◌, Bool, true, false, List, [], ◌∷◌, ◌++◌, length,
  ◌==◌, ltb, arith, sym, ap, subst, length-append, Bool-cases, inl, inr,
}
use luasys.TaskList.{Task, Tasks, set_task, list_del}
use luasys.TaskList.Links.{state, IsRing-Unchanged, Unchanged, Unchanged-all}
use luasys.TaskList.Times.{one_if, times, erase, times-append, times-erase, length-erase, Apart-one}
use luasys.Sched.Owned.{
  Core, Fits, Rings, Places, Placed, Flags, core_add, core_free, swap, Rings-swap, core_add-Rings,
  core_del-Rings, Rings-links, Fits-state, set_task-links, set_task_self, set_task-other,
}

abbrev pub core_take : ℕ → Core → Core
core_take id c = let (h, ts) = list_del id c.active c.task in record c { active = h; task = ts }

abbrev pub core_reuse : ℕ → Core → Core
core_reuse id c = let (h, ts) = list_del id c.free c.task in record c { free = h; task = ts }

pub one_if_le : (b : Bool) → one_if b ≤ 1
one_if_le true = omega arith
one_if_le false = omega arith

module _ (id : ℕ) (c : Core) (p : Places) where
  -- A task that is run goes to the end of the active tasks.
  pub requeue-Placed :
      1 ≤ times id p.running
      → Placed c p
      → Placed
          (core_add id c)
          (record p { active = p.active ++ id ∷ []; running = erase id p.running })
  requeue-Placed h o = record {
    rings =
        core_add-Rings id c p.active p.free (omega (arith, o.once id, one_if_le (ltb id c.buf_idx)))
          o.rings;
    once = λ x.
        omega (arith, o.once x, times-append p.active (id ∷ []) x, times-erase p.running id x h);
    live = omega (arith, o.live, length-append p.active (id ∷ []), length-erase p.running id h);
    all = o.all;
    room = o.room;
    range = o.range;
  }

  -- So does a suspended one.
  pub wake-Placed :
      1 ≤ times id p.suspended
      → Placed c p
      → Placed
          (core_add id c)
          (record p { active = p.active ++ id ∷ []; suspended = erase id p.suspended })
  wake-Placed h o = record {
    rings =
        core_add-Rings id c p.active p.free (omega (arith, o.once id, one_if_le (ltb id c.buf_idx)))
          o.rings;
    once = λ x.
        omega (arith, o.once x, times-append p.active (id ∷ []) x, times-erase p.suspended id x h);
    live = omega (arith, o.live, length-append p.active (id ∷ []), length-erase p.suspended id h);
    all = o.all;
    room = o.room;
    range = o.range;
  }

  -- A task that is run is deleted.
  pub delete-Placed :
      1 ≤ times id p.running
      → Placed c p
      → Placed
          (record (core_free id c) { ntasks = (c.ntasks + (2 ^ 32 - 1)) % 2 ^ 32 })
          (record p { free = p.free ++ id ∷ []; running = erase id p.running })
  delete-Placed h o = record {
    rings = Rings-swap (core_add id (swap c)) (p.free ++ id ∷ []) p.active (
        core_add-Rings id (swap c) p.free p.active
          (omega (arith, o.once id, one_if_le (ltb id c.buf_idx)))
          (Rings-swap c p.active p.free o.rings));
    once =
        λ x. omega (arith, o.once x, times-append p.free (id ∷ []) x, times-erase p.running id x h);
    live = omega (arith, o.live, o.all, o.room, o.range, length-erase p.running id h);
    all = omega (
      arith,
      o.live,
      o.all,
      o.room,
      o.range,
      length-append p.free (id ∷ []),
      length-erase p.running id h,
    );
    room = o.room;
    range = o.range;
  }

  -- A task that is run becomes suspended.
  pub suspend-Placed :
      1 ≤ times id p.running
      → Placed c p
      → Placed c (record p { running = erase id p.running; suspended = id ∷ p.suspended })
  suspend-Placed h o = record {
    rings = o.rings;
    once = λ x. omega (arith, o.once x, times-erase p.running id x h);
    live = omega (arith, o.live, length-erase p.running id h);
    all = o.all;
    room = o.room;
    range = o.range;
  }

  -- The first of the active tasks is taken to be run.
  pub take-Placed :
      (bs : List ℕ)
      → p.active ≡ id ∷ bs
      → Placed c p
      → Placed (core_take id c) (record p { active = bs; running = id ∷ p.running })
  take-Placed bs e o = record {
    rings = core_del-Rings id c bs p.free (subst (λ l. Rings c l p.free) e o.rings);
    once = λ x. omega (arith, o.once x, ap (times x) e);
    live = omega (arith, o.live, ap length e);
    all = o.all;
    room = o.room;
    range = o.range;
  }

  -- The first of the free tasks is taken for a new coroutine, which is still to be made active.
  pub reuse-Placed :
      (bs : List ℕ)
      → p.free ≡ id ∷ bs
      → Placed c p
      → Placed
          (record (core_reuse id c) { ntasks = (c.ntasks + 1) % 2 ^ 32 })
          (record p { free = bs; running = id ∷ p.running })
  reuse-Placed bs e o = record {
    rings = Rings-swap (core_take id (swap c)) bs p.active (
        core_del-Rings id (swap c) bs p.active
          (subst (λ l. Rings (swap c) l p.active) e (Rings-swap c p.active p.free o.rings)));
    once = λ x. omega (arith, o.once x, ap (times x) e);
    live = omega (arith, o.live, o.all, o.room, o.range, ap length e);
    all = omega (arith, o.live, o.all, o.room, o.range, ap length e);
    room = o.room;
    range = o.range;
  }

  -- The task at the end of the buffer is taken for one.
  pub fresh-Placed :
      (b : ℕ)
      → c.buf_idx + 1 ≤ b
      → b < 2 ^ 31
      → Placed c p
      → Placed
          (record c { buf_idx = c.buf_idx + 1; buf_max = b; ntasks = (c.ntasks + 1) % 2 ^ 32 })
          (record p { running = c.buf_idx ∷ p.running })
  fresh-Placed b h lt o = record {
    rings = o.rings;
    once = λ x. ground (arith, o.once x);
    live = omega (arith, o.live, o.all);
    all = omega (arith, o.all);
    room = h;
    range = lt;
  }

  -- A write to a task that keeps its links, and one to a task that is run
  pub write-Placed :
      (t : Task)
      → t.next_id ≡ (c.task id).next_id
      → t.prev_id ≡ (c.task id).prev_id
      → Placed c p
      → Placed (record c { task = set_task id t c.task }) p
  write-Placed t n q o = record {
    rings =
        Rings-links c (record c { task = set_task id t c.task }) p.active p.free refl refl
          (set_task-links id t c.task n q) o.rings;
    once = o.once;
    live = o.live;
    all = o.all;
    room = o.room;
    range = o.range;
  }

  pub init-Placed :
      (t : Task)
      → 1 ≤ times id p.running
      → Placed c p
      → Placed (record c { task = set_task id t c.task }) p
  init-Placed t h o =
      let out : (times id p.active ≡ 0) × (times id p.free ≡ 0) = (
        omega (arith, o.once id, one_if_le (ltb id c.buf_idx)),
        omega (arith, o.once id, one_if_le (ltb id c.buf_idx)),
      ) in
      let ts : Tasks = set_task id t c.task in
      let same : (l : List ℕ) → times id l ≡ 0 → Unchanged c.task ts l = λ l z.
        Unchanged-all l c.task ts (id ∷ [])
          (λ j n.
            let e = set_task-other id t c.task j n.0 in
            (ap (λ u. u.next_id) e, ap (λ u. u.prev_id) e))
          (Apart-one l id z) in
      record {
        rings = (
          IsRing-Unchanged p.active c.active c.task ts (same p.active out.0) o.rings.0,
          IsRing-Unchanged p.free c.free c.task ts (same p.free out.1) o.rings.1,
          o.rings.2,
        );
        once = o.once;
        live = o.live;
        all = o.all;
        room = o.room;
        range = o.range;
      }

pub Flags-state :
    (ts ts' : Tasks) (b : ℕ) (ws : List ℕ)
    → ((j : ℕ) → state (ts' j) ≡ state (ts j))
    → Flags ts b ws
    → Flags ts' b ws
Flags-state ts ts' b ws e f x lt = Fits-state (ts x) (ts' x) (ltb 0 (times x ws)) (e x) (f x lt)

pub Flags-set :
    (id : ℕ) (t : Task) (ts : Tasks) (b : ℕ) (ws ws' : List ℕ)
    → Fits t (ltb 0 (times id ws'))
    → ((j : ℕ) → j ≢ id → times j ws' ≡ times j ws)
    → ((x : ℕ) → x < b → x ≢ id → Fits (ts x) (ltb 0 (times x ws)))
    → Flags (set_task id t ts) b ws'
Flags-set id t ts b ws ws' here other f x lt = elim (Bool-cases (x == id)) [
  | inl e ↦
      let same : x ≡ id = ground (arith, e) in
      subst (λ j. Fits (set_task id t ts j) (ltb 0 (times j ws'))) (sym same)
        (subst (λ u. Fits u (ltb 0 (times id ws'))) (sym (set_task_self id t ts)) here)
  | inr e ↦
      let ne : x ≢ id = λ q. ground (arith, e, q) in
      subst (λ u. Fits u (ltb 0 (times x ws'))) (sym (set_task-other id t ts x ne))
        (subst (λ n. Fits (ts x) (ltb 0 n)) (sym (other x ne)) (f x lt ne))
]
