-- ===== src/TaskList/Ring.antt =====
-- The circular lists of tasks against lists of ids: `sched_tasklist_add` puts a task at the end, and
-- `sched_tasklist_del` of the head takes it off the front.
use luasys.Base.{
  ℕ, ◌≡◌, refl, ◌≢◌, Option, none, some, Bool, true, false, List, [], ◌∷◌, ◌++◌, arith, ◌∙◌, sym,
  ap, subst, ◌==◌, if◌then◌else◌,
}
use luasys.TaskList.{Tasks, set_task, set_next, set_prev, list_add, list_del}

-- The last of the ids that begin with `a`.
abbrev pub last : ℕ → List ℕ → ℕ
last a [] = a
last a (b ∷ bs) = last b bs

-- Each task from `a` on is linked with the one behind it, both ways.
abbrev pub Seg : Tasks → ℕ → List ℕ → Type 0
Seg ts a [] = Unit
Seg ts a (b ∷ bs) = ((ts a).next_id ≡ b) × ((ts b).prev_id ≡ a) × Seg ts b bs

abbrev pub NotIn : ℕ → List ℕ → Type 0
NotIn x [] = Unit
NotIn x (y ∷ ys) = (x ≢ y) × NotIn x ys

abbrev pub Distinct : List ℕ → Type 0
Distinct [] = Unit
Distinct (x ∷ xs) = NotIn x xs × Distinct xs

-- The circular list with this head has these tasks, each of them once.
abbrev pub IsRing : Tasks → Option ℕ → List ℕ → Type 0
IsRing ts head [] = head ≡ none
IsRing ts head (a ∷ bs) =
    (head ≡ some a)
    × Seg ts a bs
    × ((ts (last a bs)).next_id ≡ a)
    × ((ts a).prev_id ≡ last a bs)
    × Distinct (a ∷ bs)

-- The links of the list are the same in both buffers, but for its outer ends.
abbrev pub Same : Tasks → Tasks → ℕ → List ℕ → Type 0
Same ts ts' a [] = Unit
Same ts ts' a (b ∷ bs) =
    ((ts' a).next_id ≡ (ts a).next_id) × ((ts' b).prev_id ≡ (ts b).prev_id) × Same ts ts' b bs

pub Seg-Same :
    (bs : List ℕ) (ts ts' : Tasks) (a : ℕ) → Same ts ts' a bs → Seg ts a bs → Seg ts' a bs
Seg-Same [] ts ts' a same s = tt
Seg-Same (b ∷ bs) ts ts' a (n, p, same) (sn, sp, s) = (n ∙ sn, p ∙ sp, Seg-Same bs ts ts' b same s)

pub NotIn-last : (bs : List ℕ) (x b : ℕ) → NotIn x (b ∷ bs) → x ≢ last b bs
NotIn-last [] x b h = h.0
NotIn-last (c ∷ bs) x b h = NotIn-last bs x c h.1

-- A buffer that differs in the `next` of the last task and in the `prev` of a task outside of the
-- list, and in any field of `id`, which is no task of the list.
Same-ends :
    (bs : List ℕ) (ts ts' : Tasks) (a h id : ℕ)
    → Distinct (a ∷ bs)
    → NotIn h bs
    → NotIn id (a ∷ bs)
    → ((i : ℕ) → i ≢ last a bs → i ≢ id → (ts' i).next_id ≡ (ts i).next_id)
    → ((i : ℕ) → i ≢ h → i ≢ id → (ts' i).prev_id ≡ (ts i).prev_id)
    → Same ts ts' a bs
Same-ends [] ts ts' a h id d nh ni n p = tt
Same-ends (b ∷ bs) ts ts' a h id (da, d) (hb, nh) (ia, ni) n p = (
  n a (NotIn-last bs a b da) (λ e. ia (sym e)),
  p b (λ e. hb (sym e)) (λ e. ni.0 (sym e)),
  Same-ends bs ts ts' b h id d nh ni n p,
)

Seg-snoc :
    (bs : List ℕ) (ts : Tasks) (a id : ℕ)
    → Seg ts a bs
    → (ts (last a bs)).next_id ≡ id
    → (ts id).prev_id ≡ last a bs
    → Seg ts a (bs ++ id ∷ [])
Seg-snoc [] ts a id s n p = (n, p, tt)
Seg-snoc (b ∷ bs) ts a id (sn, sp, s) n p = (sn, sp, Seg-snoc bs ts b id s n p)

last-snoc : (bs : List ℕ) (a id : ℕ) → last a (bs ++ id ∷ []) ≡ id
last-snoc [] a id = refl
last-snoc (b ∷ bs) a id = last-snoc bs b id

NotIn-snoc : (bs : List ℕ) (x id : ℕ) → NotIn x bs → x ≢ id → NotIn x (bs ++ id ∷ [])
NotIn-snoc [] x id h ne = (ne, tt)
NotIn-snoc (b ∷ bs) x id h ne = (h.0, NotIn-snoc bs x id h.1 ne)

Distinct-snoc : (bs : List ℕ) (id : ℕ) → Distinct bs → NotIn id bs → Distinct (bs ++ id ∷ [])
Distinct-snoc [] id d n = (tt, tt)
Distinct-snoc (b ∷ bs) id d n =
    (NotIn-snoc bs b id d.0 (λ e. n.0 (sym e)), Distinct-snoc bs id d.1 n.1)

-- What the assignments to one field do to both links.
module _ (i n : ℕ) (ts : Tasks) (j : ℕ) where
  pub set_next-next : (set_next i n ts j).next_id ≡ (if j == i then n else (ts j).next_id)
  unfolding set_task
  set_next-next = ground arith

  pub set_next-prev : (set_next i n ts j).prev_id ≡ (ts j).prev_id
  unfolding set_task
  set_next-prev = ground arith

  pub set_prev-prev : (set_prev i n ts j).prev_id ≡ (if j == i then n else (ts j).prev_id)
  unfolding set_task
  set_prev-prev = ground arith

  pub set_prev-next : (set_prev i n ts j).next_id ≡ (ts j).next_id
  unfolding set_task
  set_prev-next = ground arith

-- The buffer after the assignments of `sched_tasklist_add` to a list with head `h`, whose last task
-- is `p`.
abbrev pub added : ℕ → ℕ → ℕ → Tasks → Tasks
added id h p ts = set_next id h (set_prev h id (set_prev id p (set_next p id ts)))

module _ (id h p : ℕ) (ts : Tasks) where
  pub list_add-added : (ts h).prev_id ≡ p → list_add id (some h) ts ≡ (some h, added id h p ts)
  unfolding list_add
  list_add-added e =
      let same : (set_next (ts h).prev_id id ts h).prev_id ≡ (ts h).prev_id =
        set_next-prev (ts h).prev_id id ts h in
      (λ i. (
        some h,
        set_next id h (set_prev h id (set_prev id (same i) (set_next (ts h).prev_id id ts))),
      ))
      ∙ (λ i. (some h, added id h (e i) ts))

  pub added-next :
      (j : ℕ)
      → (added id h p ts j).next_id
        ≡ (if j == id then h else (if j == p then id else (ts j).next_id))
  added-next j =
      set_next-next id h (set_prev h id (set_prev id p (set_next p id ts))) j
      ∙ ap (λ (n : ℕ). if j == id then h else n)
          (set_prev-next h id (set_prev id p (set_next p id ts)) j
            ∙ set_prev-next id p (set_next p id ts) j
            ∙ set_next-next p id ts j)

  pub added-prev :
      (j : ℕ)
      → (added id h p ts j).prev_id
        ≡ (if j == h then id else (if j == id then p else (ts j).prev_id))
  added-prev j =
      set_next-prev id h (set_prev h id (set_prev id p (set_next p id ts))) j
      ∙ set_prev-prev h id (set_prev id p (set_next p id ts)) j
      ∙ ap (λ (n : ℕ). if j == h then id else n)
          (set_prev-prev id p (set_next p id ts) j
            ∙ ap (λ (n : ℕ). if j == id then p else n) (set_next-prev p id ts j))

list_add-alone :
    (id : ℕ) (ts : Tasks) → IsRing (list_add id none ts).1 (list_add id none ts).0 (id ∷ [])
unfolding list_add set_task
list_add-alone id ts = (refl, tt, ground arith, ground arith, (tt, tt))

-- A task that is not in a circular list, added to it, becomes its last one; the list stays well
-- linked, and each task is in it once.
pub list_add-IsRing :
    (id : ℕ) (head : Option ℕ) (ids : List ℕ) (ts : Tasks)
    → IsRing ts head ids
    → NotIn id ids
    → IsRing (list_add id head ts).1 (list_add id head ts).0 (ids ++ id ∷ [])
list_add-IsRing id head [] ts e n =
    subst (λ hd. IsRing (list_add id hd ts).1 (list_add id hd ts).0 (id ∷ [])) (sym e)
      (list_add-alone id ts)
list_add-IsRing id head (a ∷ bs) ts (e, s, n, p, d) ni =
    subst (λ hd. IsRing (list_add id hd ts).1 (list_add id hd ts).0 (a ∷ bs ++ id ∷ [])) (sym e)
      (subst (λ r. IsRing r.1 r.0 (a ∷ (bs ++ id ∷ [])))
        (sym (list_add-added id a (last a bs) ts p))
        (
          refl,
          Seg-snoc bs (added id a (last a bs) ts) a id
              (Seg-Same bs ts (added id a (last a bs) ts) a
                (Same-ends bs ts (added id a (last a bs) ts) a a id d d.0 ni
                  (λ i ne1 ne2. ground (arith, added-next id a (last a bs) ts i))
                  (λ i ne1 ne2. ground (arith, added-prev id a (last a bs) ts i)))
                s)
              (ground (arith, added-next id a (last a bs) ts (last a bs), NotIn-last bs id a ni))
              (ground (arith, added-prev id a (last a bs) ts id, ni.0)),
          ap (λ j. (added id a (last a bs) ts j).next_id) (last-snoc bs a id)
              ∙ ground (arith, added-next id a (last a bs) ts id),
          ground (arith, added-prev id a (last a bs) ts a) ∙ sym (last-snoc bs a id),
          Distinct-snoc (a ∷ bs) id d ni,
        ))

-- The buffer after the assignments of `sched_tasklist_del` to a list with head `a`, next task `b`
-- and last task `p`.
abbrev pub removed : ℕ → ℕ → Tasks → Tasks
removed b p ts = set_next p b (set_prev b p ts)

list_del-tests :
    (c d : Bool) (a x : ℕ) (ts t : Tasks)
    → c ≡ false
    → d ≡ true
    → ◌≡◌ {A = Option ℕ × Tasks}
        (if c then (none, ts) else ((if d then some x else some a), t))
        (some x, t)
list_del-tests true d a x ts t h k = absurd (cc)
list_del-tests false true a x ts t h k = refl
list_del-tests false false a x ts t h k = absurd (cc)

list_del-alone :
    (a : ℕ) (head : Option ℕ) (ts : Tasks) → (ts a).next_id ≡ a → (list_del a head ts).0 ≡ none
unfolding list_del
list_del-alone a head ts n = ground arith

module _ (a b p : ℕ) (ts : Tasks) where
  pub removed-next : (j : ℕ) → (removed b p ts j).next_id ≡ (if j == p then b else (ts j).next_id)
  removed-next j =
      set_next-next p b (set_prev b p ts) j
      ∙ ap (λ (n : ℕ). if j == p then b else n) (set_prev-next b p ts j)

  pub removed-prev : (j : ℕ) → (removed b p ts j).prev_id ≡ (if j == b then p else (ts j).prev_id)
  removed-prev j = set_next-prev p b (set_prev b p ts) j ∙ set_prev-prev b p ts j

  pub list_del-removed :
      (ts a).next_id ≡ b
      → (ts a).prev_id ≡ p
      → a ≢ b
      → list_del a (some a) ts ≡ (some b, removed b p ts)
  unfolding list_del
  list_del-removed n e ne =
      let q : ℕ = (ts a).prev_id in
      let ts1 : Tasks = set_prev (ts a).next_id q ts in
      let m : ℕ = (ts a).next_id in
      let f1 : (ts1 a).prev_id ≡ p = ground (arith, set_prev-prev m q ts a) in
      let f2 : (ts1 a).next_id ≡ b = set_prev-next m q ts a ∙ n in
      let ts2 : Tasks = set_next (ts1 a).prev_id (ts1 a).next_id ts1 in
      let whole : ts2 ≡ removed b p ts =
        (λ i. set_next (f1 i) (f2 i) ts1) ∙ (λ i. set_next p b (set_prev (n i) (e i) ts)) in
      let f3 : (removed b p ts a).next_id ≡ b = ground (arith, removed-next a) in
      let head : (ts2 a).next_id ≡ b = ap (λ t. (t a).next_id) whole ∙ f3 in
      list_del-tests (a == m) (a == a) a (ts2 a).next_id ts ts2 (ground arith) (ground arith)
      ∙ (λ i. (some (head i), whole i))

-- When the first task of a circular list is deleted from it, the others are left, in order, well
-- linked and each of them once.
pub list_del-IsRing :
    (a : ℕ) (head : Option ℕ) (bs : List ℕ) (ts : Tasks)
    → IsRing ts head (a ∷ bs)
    → IsRing (list_del a head ts).1 (list_del a head ts).0 bs
list_del-IsRing a head [] ts (e, s, n, p, d) = list_del-alone a head ts n
list_del-IsRing a head (b ∷ bs) ts (e, (sn, sp, s), n, p, (da, d)) =
    subst (λ hd. IsRing (list_del a hd ts).1 (list_del a hd ts).0 (b ∷ bs)) (sym e)
      (subst (λ r. IsRing r.1 r.0 (b ∷ bs)) (sym (list_del-removed a b (last b bs) ts sn p da.0))
        (
          refl,
          Seg-Same bs ts (removed b (last b bs) ts) b
              (Same-ends bs ts (removed b (last b bs) ts) b b a d d.0 da
                (λ i ne1 ne2. ground (arith, removed-next a b (last b bs) ts i))
                (λ i ne1 ne2. ground (arith, removed-prev a b (last b bs) ts i)))
              s,
          ground (arith, removed-next a b (last b bs) ts (last b bs)),
          ground (arith, removed-prev a b (last b bs) ts b),
          d,
        ))
