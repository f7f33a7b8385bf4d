-- ===== src/TaskList/Links.antt =====
-- What the assignments to a circular list of tasks leave alone: the links of the tasks outside of it,
-- and the fields that are no links.
use luasys.Base.{ℕ, ◌≡◌, refl, ◌≢◌, Option, none, some, List, [], ◌∷◌, arith, ◌∙◌}
use luasys.TaskList.{Task, Tasks, set_task, set_next, set_prev, list_add, list_del}
use luasys.TaskList.Ring.{
  last, NotIn, IsRing, Same, Seg-Same, NotIn-last, list_add-added, added-next, added-prev,
  removed-next, removed-prev, list_del-removed,
}

-- The links of these tasks are the same in both buffers.
abbrev pub Unchanged : Tasks → Tasks → List ℕ → Type 0
Unchanged ts ts' [] = Unit
Unchanged ts ts' (i ∷ is) =
    ((ts' i).next_id ≡ (ts i).next_id) × ((ts' i).prev_id ≡ (ts i).prev_id) × Unchanged ts ts' is

-- No task is in both lists.
abbrev pub Apart : List ℕ → List ℕ → Type 0
Apart xs [] = Unit
Apart xs (y ∷ ys) = NotIn y xs × Apart xs ys

Unchanged-Same :
    (bs : List ℕ) (ts ts' : Tasks) (a : ℕ) → Unchanged ts ts' (a ∷ bs) → Same ts ts' a bs
Unchanged-Same [] ts ts' a u = tt
Unchanged-Same (b ∷ bs) ts ts' a (n, p, u) = (n, u.1, Unchanged-Same bs ts ts' b u)

Unchanged-last :
    (bs : List ℕ) (ts ts' : Tasks) (a : ℕ)
    → Unchanged ts ts' (a ∷ bs)
    → (ts' (last a bs)).next_id ≡ (ts (last a bs)).next_id
Unchanged-last [] ts ts' a u = u.0
Unchanged-last (b ∷ bs) ts ts' a (n, p, u) = Unchanged-last bs ts ts' b u

pub IsRing-Unchanged :
    (ids : List ℕ) (head : Option ℕ) (ts ts' : Tasks)
    → Unchanged ts ts' ids
    → IsRing ts head ids
    → IsRing ts' head ids
IsRing-Unchanged [] head ts ts' u e = e
IsRing-Unchanged (a ∷ bs) head ts ts' u (e, s, n, p, d) = (
  e,
  Seg-Same bs ts ts' a (Unchanged-Same bs ts ts' a u) s,
  Unchanged-last bs ts ts' a u ∙ n,
  u.1 ∙ p,
  d,
)

pub Unchanged-all :
    (os : List ℕ) (ts ts' : Tasks) (xs : List ℕ)
    → ((j : ℕ)
        → NotIn j xs
        → ((ts' j).next_id ≡ (ts j).next_id) × ((ts' j).prev_id ≡ (ts j).prev_id))
    → Apart xs os
    → Unchanged ts ts' os
Unchanged-all [] ts ts' xs f d = tt
Unchanged-all (o ∷ os) ts ts' xs f (n, d) =
    let (a, b) = f o n in (a, b, Unchanged-all os ts ts' xs f d)

list_add-alone-links :
    (id : ℕ) (ts : Tasks) (j : ℕ)
    → j ≢ id
    → (((list_add id none ts).1 j).next_id ≡ (ts j).next_id)
      × (((list_add id none ts).1 j).prev_id ≡ (ts j).prev_id)
unfolding list_add set_task
list_add-alone-links id ts j ne = (ground arith, ground arith)

list_del-alone-tasks :
    (a : ℕ) (head : Option ℕ) (ts : Tasks) → (ts a).next_id ≡ a → (list_del a head ts).1 ≡ ts
unfolding list_del
list_del-alone-tasks a head ts n = ground arith

pub list_add-links :
    (id : ℕ) (head : Option ℕ) (ids : List ℕ) (ts : Tasks) (j : ℕ)
    → IsRing ts head ids
    → NotIn j (id ∷ ids)
    → (((list_add id head ts).1 j).next_id ≡ (ts j).next_id)
      × (((list_add id head ts).1 j).prev_id ≡ (ts j).prev_id)
list_add-links id head [] ts j e (ne, _) = rw e (list_add-alone-links id ts j ne)
list_add-links id head (a ∷ bs) ts j (e, s, n, p, d) (ne, na) =
    let nl = NotIn-last bs j a na in
    rw (e, list_add-added id a (last a bs) ts p)
      (
        ground (arith, added-next id a (last a bs) ts j),
        ground (arith, added-prev id a (last a bs) ts j, na.0),
      )

pub list_del-links :
    (a : ℕ) (head : Option ℕ) (bs : List ℕ) (ts : Tasks) (j : ℕ)
    → IsRing ts head (a ∷ bs)
    → NotIn j (a ∷ bs)
    → (((list_del a head ts).1 j).next_id ≡ (ts j).next_id)
      × (((list_del a head ts).1 j).prev_id ≡ (ts j).prev_id)
list_del-links a head [] ts j (e, s, n, p, d) na =
    rw (list_del-alone-tasks a head ts n) (refl, refl)
list_del-links a head (b ∷ bs) ts j (e, (sn, sp, s), n, p, (da, d)) na =
    let nl = NotIn-last bs j b na.1 in
    rw (e, list_del-removed a b (last b bs) ts sn p da.0)
      (
        ground (arith, removed-next a b (last b bs) ts j),
        ground (arith, removed-prev a b (last b bs) ts j, na.1.0),
      )

-- The fields of a task that are no links.
abbrev pub state : Task → Task
state t = record t { prev_id = 0; next_id = 0 }

set_next-state : (i n : ℕ) (ts : Tasks) (j : ℕ) → state (set_next i n ts j) ≡ state (ts j)
unfolding set_task
set_next-state i n ts j = ground arith

set_prev-state : (i n : ℕ) (ts : Tasks) (j : ℕ) → state (set_prev i n ts j) ≡ state (ts j)
unfolding set_task
set_prev-state i n ts j = ground arith

pub list_add-state :
    (id : ℕ) (head : Option ℕ) (ts : Tasks) (j : ℕ)
    → state ((list_add id head ts).1 j) ≡ state (ts j)
unfolding list_add
list_add-state id none ts j = set_next-state id id (set_prev id id ts) j ∙ set_prev-state id id ts j
list_add-state id (some h) ts j =
    let ts1 : Tasks = set_next (ts h).prev_id id ts in
    let ts2 : Tasks = set_prev id (ts1 h).prev_id ts1 in
    set_next-state id h (set_prev h id ts2) j
    ∙ set_prev-state h id ts2 j
    ∙ set_prev-state id (ts1 h).prev_id ts1 j
    ∙ set_next-state (ts h).prev_id id ts j

pub list_del-state :
    (id : ℕ) (head : Option ℕ) (ts : Tasks) (j : ℕ)
    → state ((list_del id head ts).1 j) ≡ state (ts j)
unfolding list_del
list_del-state id head ts j =
    let n : ℕ = (ts id).next_id in
    let ts1 : Tasks = set_prev n (ts id).prev_id ts in
    ground (
      arith,
      set_next-state (ts1 id).prev_id (ts1 id).next_id ts1 j,
      set_prev-state n (ts id).prev_id ts j,
    )
