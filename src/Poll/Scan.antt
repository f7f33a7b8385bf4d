-- ===== src/Poll/Scan.antt =====
-- The round over the result of `poll` handles each place with a result once, though one-shot events
-- are deleted from the array on the way.
use luasys.Base.{
  ℕ, zero, suc, ◌+◌, ◌-◌, ◌≤◌, ◌<◌, ◌^◌, ◌%◌, ◌≡◌, ◌≢◌, refl, sym, ap, subst, ◌∙◌, arith, Bool,
  true, false, not, ◌&&◌, ◌||◌, ◌⊎◌, ◌/◌, leb, Option, none, some, List, ◌∷◌, ◌==◌, if◌then◌else◌,
  on_branches, Bool-cases, inl, inr, ltb, ==_iff,
}
use luasys.TaskList.Times.{one_if}
use luasys.Poll.{
  PollFd, PollEvent, Polls, nevent, no_revents, put_event, put_fd, put_at, del, is_set, with_result,
  visit, scan,
}

-- What the round should come to: the events of the places with a result that were not active before,
-- the last of them first, in front of those that were ready.
abbrev pub results : ℕ → ℕ → Polls → List ℕ → List ℕ
results zero i p ready = ready
results (suc n) i p ready = results n (i + 1) p (
    if is_set (p.fdset i).revents && not (p.event (p.events i)).active
    then p.events i ∷ ready
    else ready)

-- The number of places with a result, which `poll` returns.
abbrev pub pending : ℕ → ℕ → Polls → ℕ
pending zero i p = 0
pending (suc n) i p = one_if (is_set (p.fdset i).revents) + pending n (i + 1) p

-- No event is in two of the places.
abbrev pub Single : ℕ → ℕ → Polls → Type 0
Single n i p = (j k : ℕ) → i ≤ j → j < k → k < i + n → p.events j ≢ p.events k

-- The places from `i` on are as they were in `p`, and their events are at most there by their index.
abbrev pub Unvisited : Polls → Polls → ℕ → ℕ → Type 0
Unvisited p q i n =
    (k : ℕ)
    → i ≤ k
    → k < i + n
    → (q.events k ≡ p.events k)
      × (q.fdset k ≡ p.fdset k)
      × ((q.event (p.events k)).active ≡ (p.event (p.events k)).active)
      × ((q.event (p.events k)).index ≤ k)

module _ (i n j : ℕ) where
  put_at_other : (f : ℕ → ℕ) → j ≢ i → put_at i n f j ≡ f j
  unfolding put_at
  put_at_other f ne = ground arith

put_fd_other : (i j : ℕ) (e : PollFd) (f : ℕ → PollFd) → j ≢ i → put_fd i e f j ≡ f j
unfolding put_fd
put_fd_other i j e f ne = ground arith

put_event_other : (i j : ℕ) (e : PollEvent) (f : ℕ → PollEvent) → j ≢ i → put_event i e f j ≡ f j
unfolding put_event
put_event_other i j e f ne = ground arith

-- A write of an index.
put_index :
    (m j idx : ℕ) (f : ℕ → PollEvent)
    → ((put_event m (record (f m) { index = idx }) f j).active ≡ (f j).active)
      × ((k : ℕ)
          → idx ≤ k
          → (f j).index ≤ k
          → (put_event m (record (f m) { index = idx }) f j).index ≤ k)
unfolding put_event
put_index m j idx f = elim (Bool-cases (j == m)) [
  | inl e ↦
      let same : j ≡ m = ground (arith, e) in
      let here : PollEvent = record (f m) { index = idx } in
      (
        (λ i. (if e i then here else f j).active) ∙ ap (λ x. (f x).active) (sym same),
        λ k a b. subst (λ (t : Bool). (if t then here else f j).index ≤ k) (sym e) a,
      )
  | inr e ↦ (
    (λ i. (if e i then record (f m) { index = idx } else f j).active),
    λ k a b.
        subst (λ (t : Bool). (if t then record (f m) { index = idx } else f j).index ≤ k) (sym e) b,
  )
]

-- What a deletion leaves alone: the places behind the event's own, and the other events but for an
-- index.
abbrev Spares : ℕ → ℕ → Polls → Polls → Type 0
Spares ev idx q r =
    ((k : ℕ) → idx < k → (r.events k ≡ q.events k) × (r.fdset k ≡ q.fdset k))
    × ((x : ℕ)
        → x ≢ ev
        → ((r.event x).active ≡ (q.event x).active)
          × ((k : ℕ) → idx ≤ k → (q.event x).index ≤ k → (r.event x).index ≤ k))

del-Spares : (ev : ℕ) (q : Polls) → Spares ev (q.event ev).index q (del ev q)
unfolding del
del-Spares ev q =
    let idx : ℕ = (q.event ev).index in
    let npolls : ℕ = (q.npolls + (2 ^ 32 - 1)) % 2 ^ 32 in
    let moved : ℕ = q.events npolls in
    let gone : ℕ → PollEvent = put_event ev (record (q.event ev) { deleted = true }) q.event in
    let inner : Bool = ltb idx npolls in
    (
      (λ k lt.
          let ne : k ≢ idx = λ e. absurd (omega arith) in
          (
            on_branches (λ (f : ℕ → ℕ). f k ≡ q.events k) inner (put_at idx moved q.events) q.events
                (λ e. put_at_other idx moved k q.events ne) (λ e. refl),
            on_branches (λ (f : ℕ → PollFd). f k ≡ q.fdset k) inner
                (put_fd idx (q.fdset npolls) q.fdset) q.fdset
                (λ e. put_fd_other idx k (q.fdset npolls) q.fdset ne) (λ e. refl),
          )),
      (λ x ne.
          let same = put_event_other ev x (record (q.event ev) { deleted = true }) q.event ne in
          on_branches
            (λ (f : ℕ → PollEvent).
              ((f x).active ≡ (q.event x).active)
              × ((k : ℕ) → idx ≤ k → (q.event x).index ≤ k → (f x).index ≤ k))
            inner (put_event moved (record (gone moved) { index = idx }) gone) gone
            (λ e.
              let (a, b) = put_index moved x idx gone in
              (
                a ∙ ap (λ u. u.active) same,
                λ k c d. b k c (subst (λ (u : PollEvent). u.index ≤ k) (sym same) d),
              ))
            (λ e. (
              ap (λ u. u.active) same,
              λ k c d. subst (λ (u : PollEvent). u.index ≤ k) (sym same) d,
            ))),
    )

Spares-trans :
    (ev a i : ℕ) (q r t : Polls) → a ≤ i → Spares ev i q r → Spares ev a r t → Spares ev i q t
Spares-trans ev a i q r t le (f, g) (h, m) = (
  (λ k lt. let (x, y) = f k lt in let (z, w) = h k (omega arith) in (z ∙ x, w ∙ y)),
  (λ x ne.
      let (u, v) = g x ne in let (y, z) = m x ne in (y ∙ u, λ k c d. z k (omega arith) (v k c d))),
)

put_event_self : (i : ℕ) (e : PollEvent) (f : ℕ → PollEvent) → put_event i e f i ≡ e
unfolding put_event
put_event_self i e f = ground arith

-- A result is cleared and an event's flags are set.
mark-Spares :
    (i ev : ℕ) (d : PollFd) (e : PollEvent) (q : Polls)
    → Spares ev i q (record q { fdset = put_fd i d q.fdset; event = put_event ev e q.event })
mark-Spares i ev d e q = (
  (λ k lt. let ne : k ≢ i = λ h. absurd (omega arith) in (refl, put_fd_other i k d q.fdset ne)),
  (λ x ne.
      let same = put_event_other ev x e q.event ne in
      (ap (λ u. u.active) same, λ k c h. subst (λ (u : PollEvent). u.index ≤ k) (sym same) h)),
)

-- A visit to a place leaves the places behind it alone, and puts its event into the list unless the
-- event is active already.
visit-Spares :
    (i : ℕ) (q : Polls) (ready : List ℕ)
    → (q.event (q.events i)).index ≤ i
    → Spares (q.events i) i q (visit i q ready).0
      × ((visit i q ready).1
          ≡ (if (q.event (q.events i)).active then ready else q.events i ∷ ready))
unfolding visit with_result
visit-Spares i q ready le =
    let fdp : PollFd = q.fdset i in
    let ev : ℕ = q.events i in
    let e : PollEvent = with_result fdp.revents (q.event ev) in
    let cleared : PollFd = record fdp { revents = no_revents } in
    let q1 = record q { fdset = put_fd i cleared q.fdset } in
    let seen = record q1 { event = put_event ev e q.event } in
    let now_active = record q1 { event = put_event ev (record e { active = true }) q.event } in
    let handled : Polls = if e.oneshot then del ev now_active else now_active in
    let Result : Polls × List ℕ → Type 0 =
      λ r. Spares ev i q r.0 × (r.1 ≡ (if (q.event ev).active then ready else ev ∷ ready)) in
    on_branches Result e.active (seen, ready) (handled, ev ∷ ready)
      (λ y. (mark-Spares i ev cleared e q, ap (λ b. if b then ready else ev ∷ ready) (sym y)))
      (λ y. (
        on_branches (Spares ev i q) e.oneshot (del ev now_active) now_active
            (λ z.
              let own : (now_active.event ev).index ≡ (q.event ev).index =
                ap (λ u. u.index) (put_event_self ev (record e { active = true }) q.event) in
              Spares-trans ev (now_active.event ev).index i q now_active (del ev now_active)
                (omega (arith, own)) (mark-Spares i ev cleared (record e { active = true }) q)
                (del-Spares ev now_active))
            (λ z. mark-Spares i ev cleared (record e { active = true }) q),
        ap (λ b. if b then ready else ev ∷ ready) (sym y),
      ))

first_zero : (b : Bool) (n : ℕ) → one_if b + n ≡ 0 → (b ≡ false) × (n ≡ 0)
first_zero true n e = absurd (omega arith)
first_zero false n e = (refl, omega (arith, e))

not_both : (b : Bool) → b ≡ true → b ≢ false
not_both b e h = cc

no_results :
    (n i : ℕ) (p : Polls) (ready : List ℕ) → pending n i p ≡ 0 → results n i p ready ≡ ready
no_results zero i p ready e = refl
no_results (suc n) i p ready e = elim (Bool-cases (is_set (p.fdset i).revents)) [
  | inl y ↦ absurd (
      not_both (is_set (p.fdset i).revents) y
        (first_zero (is_set (p.fdset i).revents) (pending n (i + 1) p) e).0)
  | inr y ↦
      ap
        (λ (b : Bool).
          results n (i + 1) p
            (if b && not (p.event (p.events i)).active then p.events i ∷ ready else ready))
        y
      ∙ no_results n (i + 1) p ready
          ((first_zero (is_set (p.fdset i).revents) (pending n (i + 1) p) e).1)
]

Single-tail : (n i : ℕ) (p : Polls) → Single (suc n) i p → Single n (i + 1) p
Single-tail n i p s j k a b c = s j k (omega arith) b (omega arith)

Unvisited-tail : (n i : ℕ) (p q : Polls) → Unvisited p q i (suc n) → Unvisited p q (i + 1) n
Unvisited-tail n i p q u k a b = u k (omega arith) (omega arith)

-- A visit of the first place leaves the others unvisited.
Unvisited-visit :
    (n i : ℕ) (p q : Polls) (ready : List ℕ)
    → Single (suc n) i p
    → Unvisited p q i (suc n)
    → Unvisited p (visit i q ready).0 (i + 1) n
Unvisited-visit n i p q ready single u k a b =
    let (e0, d0, a0, x0) = u i (omega arith) (omega arith) in
    let (e, d, act, x) = u k (omega arith) (omega arith) in
    let le : (q.event (q.events i)).index ≤ i =
      subst (λ (ev : ℕ). (q.event ev).index ≤ i) (sym e0) x0 in
    let ((f, g), r) = visit-Spares i q ready le in
    let (y, z) = f k (omega arith) in
    let other : p.events k ≢ q.events i =
      λ h. single i k (omega arith) (omega arith) (omega arith) (sym (h ∙ e0)) in
    let (same, bound) = g (p.events k) other in (y ∙ e, z ∙ d, same ∙ act, bound k (omega arith) x)

-- Even if each of the `k` events to come is deleted, the array is not made smaller: it is so small
-- that it never is, or more than a quarter of it stays in use. It has as many places.
abbrev pub Roomy : Polls → ℕ → Type 0
Roomy q k =
    (q.npolls < 2 ^ 32) × (k ≤ q.npolls) × ((q.max_polls < 132) ⊎ (q.max_polls / 4 + k < q.npolls))

-- What a visit does to the size of the array
abbrev Stays : Polls → Polls → ℕ → Type 0
Stays q r k = (r.max_polls ≡ q.max_polls) × Roomy r k

del-Stays : (ev k : ℕ) (q : Polls) → Roomy q (1 + k) → Stays q (del ev q) k
unfolding del
del-Stays ev k q (lt, pos, room) =
    let less : (q.npolls + (2 ^ 32 - 1)) % 2 ^ 32 ≡ q.npolls - 1 = omega arith in
    elim room [
      | inl small ↦
          let no : (ltb (nevent / 2) (q.npolls - 1) && leb (q.npolls - 1) (q.max_polls / 4))
              ≡ false =
            ground arith in
          rw (less, no) (refl, (omega arith, omega arith, inl small))
      | inr more ↦
          let no : (ltb (nevent / 2) (q.npolls - 1) && leb (q.npolls - 1) (q.max_polls / 4))
              ≡ false =
            ground arith in
          rw (less, no) (refl, (omega arith, omega arith, inr (omega arith)))
    ]

Roomy-less : (k : ℕ) (q : Polls) → Roomy q (1 + k) → Roomy q k
Roomy-less k q (lt, pos, room) =
    (lt, omega arith, elim room [ inl small ↦ inl small | inr more ↦ inr (omega arith) ])

visit-Stays :
    (i k : ℕ) (q : Polls) (ready : List ℕ) → Roomy q (1 + k) → Stays q (visit i q ready).0 k
unfolding visit with_result
visit-Stays i k q ready room =
    let fdp : PollFd = q.fdset i in
    let ev : ℕ = q.events i in
    let e : PollEvent = with_result fdp.revents (q.event ev) in
    let q1 = record q { fdset = put_fd i (record fdp { revents = no_revents }) q.fdset } in
    let seen = record q1 { event = put_event ev e q.event } in
    let now_active = record q1 { event = put_event ev (record e { active = true }) q.event } in
    let less = Roomy-less k q room in
    on_branches (λ (r : Polls × List ℕ). Stays q r.0 k) e.active (seen, ready)
      ((if e.oneshot then del ev now_active else now_active), ev ∷ ready) (λ _. (refl, less))
      (λ _.
        on_branches (λ r. Stays q r k) e.oneshot (del ev now_active) now_active
          (λ _. del-Stays ev k now_active room) (λ _. (refl, less)))

not_zero : (m : ℕ) → (1 + m == 0) ≡ false
not_zero m = ground arith

-- One place of the loop, with a result and without
scan-visit :
    (n i m : ℕ) (q : Polls) (ready : List ℕ)
    → is_set (q.fdset i).revents ≡ true
    → (visit i q ready).0.max_polls ≡ q.max_polls
    → scan (suc n) i (1 + m) q ready ≡ scan n (i + 1) m (visit i q ready).0 (visit i q ready).1
unfolding scan
scan-visit n i m q ready s same =
    let r = visit i q ready in
    let after : ℕ → Option (Polls × List ℕ) = λ k. scan n (i + 1) k r.0 r.1 in
    let rest : Option (Polls × List ℕ) = scan n (i + 1) (1 + m) q ready in
    let is_last : Bool = n == 0 || 1 + m - 1 == 0 in
    let stale : Option (Polls × List ℕ) = if is_last then some r else none in
    let less : 1 + m - 1 ≡ m = omega arith in
    let in_place : (r.0.max_polls == q.max_polls) ≡ true =
      (==_iff r.0.max_polls q.max_polls).1 same in
    (λ j.
      if not_zero m j
      then some (q, ready)
      else (if s j then (if in_place j then after (1 + m - 1) else stale) else rest))
    ∙ ap after less

scan-skip :
    (n i m : ℕ) (q : Polls) (ready : List ℕ)
    → is_set (q.fdset i).revents ≡ false
    → scan (suc n) i m q ready ≡ (if m == 0 then some (q, ready) else scan n (i + 1) m q ready)
unfolding scan
scan-skip n i m q ready s =
    let r = visit i q ready in
    let after : Option (Polls × List ℕ) = scan n (i + 1) (m - 1) r.0 r.1 in
    let rest : Option (Polls × List ℕ) = scan n (i + 1) m q ready in
    let is_last : Bool = n == 0 || m - 1 == 0 in
    let stale : Option (Polls × List ℕ) = if is_last then some r else none in
    λ j.
      if m == 0
      then some (q, ready)
      else (if s j then (if r.0.max_polls == q.max_polls then after else stale) else rest)

zero_test : (m : ℕ) → (m == 0) ≡ true → m ≡ 0
zero_test m e = (==_iff m 0).0 e

kept_if :
    (b c : Bool) (x : ℕ) (xs : List ℕ)
    → b ≡ true
    → (if c then xs else x ∷ xs) ≡ (if b && not c then x ∷ xs else xs)
kept_if true true x xs e = refl
kept_if true false x xs e = refl
kept_if false c x xs e = absurd (cc)

first_place : (i n : ℕ) → (i ≤ i) × (i < i + suc n)
first_place i n = (omega arith, omega arith)

no_more : (m : ℕ) → 0 + m ≡ m
no_more m = omega arith

-- The list of ready events after the loop
abbrev pub readies : Option (Polls × List ℕ) → Option (List ℕ)
readies none = none
readies (some r) = some r.1

scan-rest :
    (n i m : ℕ) (p q : Polls) (ready : List ℕ)
    → m ≡ pending n i p
    → readies (scan n i m q ready) ≡ some (results n i p ready)
    → readies (if m == 0 then some (q, ready) else scan n i m q ready) ≡ some (results n i p ready)
scan-rest n i m p q ready e h =
    on_branches (λ (r : Option (Polls × List ℕ)). readies r ≡ some (results n i p ready)) (m == 0)
      (some (q, ready)) (scan n i m q ready)
      (λ z. ap some (sym (no_results n i p ready (sym e ∙ zero_test m z)))) (λ z. h)

-- In a round over places of different events, of which those from `i` on are as they were at first,
-- when the array has at most 131 places or more than a quarter of it stays in use whatever one-shot
-- events are deleted, no read is through a pointer that is no longer valid, and each place with a
-- result is handled once, in order: the events that were not active become the ready ones, though
-- one-shot events are deleted from the array meanwhile.
pub scan-results :
    (n i : ℕ) (p q : Polls) (ready : List ℕ)
    → Single n i p
    → Unvisited p q i n
    → Roomy q (pending n i p)
    → readies (scan n i (pending n i p) q ready) ≡ some (results n i p ready)
unfolding scan
scan-results zero i p q ready single u room = refl
scan-results (suc n) i p q ready single u room =
    let (e0, d0, a0, x0) = u i (first_place i n).0 (first_place i n).1 in
    let b : Bool = is_set (p.fdset i).revents in
    let m : ℕ = pending n (i + 1) p in
    let tail = Single-tail n i p single in
    elim (Bool-cases b) [
      | inl y ↦
          let s : is_set (q.fdset i).revents ≡ true = ap (λ d. is_set d.revents) d0 ∙ y in
          let le : (q.event (q.events i)).index ≤ i =
            subst (λ (ev : ℕ). (q.event ev).index ≤ i) (sym e0) x0 in
          let listed = (visit-Spares i q ready le).1 in
          let (same, room1) =
            visit-Stays i m q ready (subst (λ (t : Bool). Roomy q (one_if t + m)) y room) in
          ap (λ (t : Bool). readies (scan (suc n) i (one_if t + m) q ready)) y
          ∙ ap readies (scan-visit n i m q ready s same)
          ∙ scan-results n (i + 1) p (visit i q ready).0 (visit i q ready).1 tail
              (Unvisited-visit n i p q ready single u) room1
          ∙ ap (λ l. some (results n (i + 1) p l))
              (listed
                ∙ (λ j. if (q.event (e0 j)).active then ready else e0 j ∷ ready)
                ∙ (λ j. if a0 j then ready else p.events i ∷ ready)
                ∙ kept_if b (p.event (p.events i)).active (p.events i) ready y)
      | inr y ↦
          let s : is_set (q.fdset i).revents ≡ false = ap (λ d. is_set d.revents) d0 ∙ y in
          ap (λ (t : Bool). readies (scan (suc n) i (one_if t + m) q ready)) y
          ∙ ap (λ (k : ℕ). readies (scan (suc n) i k q ready)) (no_more m)
          ∙ ap readies (scan-skip n i m q ready s)
          ∙ scan-rest n (i + 1) m p q ready refl (
              scan-results n (i + 1) p q ready tail (Unvisited-tail n i p q u) (
                subst (λ (k : ℕ). Roomy q k) (no_more m)
                  (subst (λ (t : Bool). Roomy q (one_if t + m)) y room)))
          ∙ ap
              (λ (t : Bool). some (
                results n (i + 1) p
                  (if t && not (p.event (p.events i)).active then p.events i ∷ ready else ready)))
              (sym y)
    ]
