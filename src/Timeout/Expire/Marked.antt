-- ===== src/Timeout/Expire/Marked.antt =====
-- The inner loop of `timeout_process`: the events whose time has come, from the head of a queue on.
use luasys.Base.{
  ℕ, zero, suc, ◌≤◌, ◌≡◌, refl, sym, ◌∙◌, ap, subst, Bool, true, false, on_branches, Option, none,
  some, List, [], ◌∷◌, length, ltb, if◌then◌else◌, arith,
}
use luasys.TaskList.Ring.{NotIn, Distinct}
use luasys.Timeout.{Event, Timers, set_event, to_long}
use luasys.Timeout.Expire.{expire}
use luasys.Timeout.Linked.{first, last, Linked, Linked-frame, All, All_map, All-NotIn, SameLinks}

-- The event as the loop leaves it
abbrev pub mark : (ev at : ℕ) → Option ℕ → Timers → Timers
mark ev at ready s =
    set_event ev (record (s.event ev) { timed_out = true; timeout_at = at; next_ready = ready }) s

expire-stop :
    (f ev timeout at : ℕ) (ready : Option ℕ) (s : Timers)
    → (s.event ev).next ≡ none
    → expire (suc f) ev timeout at ready s ≡ (none, some ev, mark ev at ready s)
unfolding expire
expire-stop f ev timeout at ready s e =
    let s' = mark ev at ready s in
    ap
      (λ (o : Option ℕ). elim o [
        | none ↦ (none, some ev, s')
        | some n ↦
            let rest = expire f n timeout at (some ev) s' in
            if ltb (to_long (s'.event n).timeout_at) timeout then rest else (some n, some ev, s')
      ])
      e

expire-next :
    (f ev timeout at n : ℕ) (ready : Option ℕ) (s : Timers)
    → (s.event ev).next ≡ some n
    → let s' = mark ev at ready s in
      expire (suc f) ev timeout at ready s ≡ (
        if ltb (to_long (s'.event n).timeout_at) timeout
        then expire f n timeout at (some ev) s'
        else (some n, some ev, s'))
unfolding expire
expire-next f ev timeout at n ready s e =
    let s' = mark ev at ready s in
    ap
      (λ (o : Option ℕ). elim o [
        | none ↦ (none, some ev, s')
        | some n ↦
            let rest = expire f n timeout at (some ev) s' in
            if ltb (to_long (s'.event n).timeout_at) timeout then rest else (some n, some ev, s')
      ])
      e

-- The list of ready events: each of these in front of the one before it, the first of `ready`
abbrev pub IsReady : Timers → Option ℕ → List ℕ → Type 0
IsReady s ready [] = Unit
IsReady s ready (x ∷ xs) = ((s.event x).next_ready ≡ ready) × IsReady s (some x) xs

-- What the loop does to the events `xs`, with the next one of the queue `n`
pub record Marked (s s' : Timers) (at : ℕ) (ready : Option ℕ) (xs : List ℕ) : Type 0 where
  pub links : (x : ℕ) → SameLinks s s' x
  pub queue : (q : ℕ) → s'.queue q ≡ s.queue q
  pub others : (x : ℕ) → NotIn x xs → s'.event x ≡ s.event x
  pub times : All (λ x. ((s'.event x).timeout_at ≡ at) × ((s'.event x).timed_out ≡ true)) xs
  pub chain : IsReady s' ready xs

-- The events whose timeouts are before `timeout`, up to the first one whose is not
abbrev pub due : Timers → ℕ → List ℕ → List ℕ
due s timeout [] = []
due s timeout (x ∷ xs) =
    let rest = due s timeout xs in
    if ltb (to_long (s.event x).timeout_at) timeout then x ∷ rest else []

abbrev pub not_due : Timers → ℕ → List ℕ → List ℕ
not_due s timeout [] = []
not_due s timeout (x ∷ xs) =
    let rest = not_due s timeout xs in
    if ltb (to_long (s.event x).timeout_at) timeout then rest else x ∷ xs

mark-Marked :
    (ev at : ℕ) (ready : Option ℕ) (s : Timers) → Marked s (mark ev at ready s) at ready (ev ∷ [])
mark-Marked ev at ready s = record {
  links = λ x. (ground arith, ground arith);
  queue = λ q. refl;
  others = λ x (ne, _). ground arith;
  times = ((ground arith, ground arith), tt);
  chain = (ground arith, tt);
}

Marked-cons :
    (s s1 s' : Timers) (ev at : ℕ) (ready : Option ℕ) (xs : List ℕ)
    → NotIn ev xs
    → Marked s s1 at ready (ev ∷ [])
    → Marked s1 s' at (some ev) xs
    → Marked s s' at ready (ev ∷ xs)
Marked-cons s s1 s' ev at ready xs out a b =
    let same = b.others ev out in
    record {
      links = λ x. let (c, d) = a.links x in let (e, f) = b.links x in (e ∙ c, f ∙ d);
      queue = λ q. b.queue q ∙ a.queue q;
      others = λ x (ne, h). b.others x h ∙ a.others x (ne, tt);
      times = (
        (
          ap (λ (e : Event). e.timeout_at) same ∙ a.times.0.0,
          ap (λ (e : Event). e.timed_out) same ∙ a.times.0.1,
        ),
        b.times,
      );
      chain = (ap (λ (e : Event). e.next_ready) same ∙ a.chain.0, b.chain);
    }

pub due-NotIn : (s : Timers) (timeout x : ℕ) (xs : List ℕ) → NotIn x xs → NotIn x (due s timeout xs)
due-NotIn s timeout x [] h = tt
due-NotIn s timeout x (y ∷ xs) (ne, h) =
    on_branches (NotIn x) (ltb (to_long (s.event y).timeout_at) timeout) (y ∷ due s timeout xs) []
      (λ _. (ne, due-NotIn s timeout x xs h)) (λ _. tt)

-- Both halves of the events are the same when the timeouts are.
abbrev pub halves : Timers → ℕ → List ℕ → List ℕ × List ℕ
halves s timeout xs = (due s timeout xs, not_due s timeout xs)

halves-same :
    (s s' : Timers) (timeout : ℕ) (xs : List ℕ)
    → All (λ x. (s'.event x).timeout_at ≡ (s.event x).timeout_at) xs
    → halves s' timeout xs ≡ halves s timeout xs
halves-same s s' timeout [] h = refl
halves-same s s' timeout (x ∷ xs) (e, h) =
    let rest = halves-same s s' timeout xs h in
    ap
      (λ t. (
        (if ltb (to_long t) timeout then x ∷ due s' timeout xs else []),
        (if ltb (to_long t) timeout then not_due s' timeout xs else x ∷ xs),
      ))
      e
    ∙ ap
        (λ (r : List ℕ × List ℕ). (
          (if ltb (to_long (s.event x).timeout_at) timeout then x ∷ r.0 else []),
          (if ltb (to_long (s.event x).timeout_at) timeout then r.1 else x ∷ xs),
        ))
        rest

-- The loop ends before the first event that is not due, and has marked the others, in order.
abbrev pub HasMarked :
    Timers
    → (timeout at : ℕ) → Option ℕ
    → (ev : ℕ) → List ℕ × List ℕ
    → Option ℕ × Option ℕ × Timers
    → Type 0
HasMarked s timeout at ready ev (d, r) (rest, ready', s') =
    (rest ≡ first r none) × (ready' ≡ last (some ev) d) × Marked s s' at ready (ev ∷ d)

-- The step of the loop, whether the next event is due or not
choose-HasMarked :
    (s : Timers) (timeout at : ℕ) (ready : Option ℕ) (ev n : ℕ) (xs d r : List ℕ)
    (rest : Option ℕ × Option ℕ × Timers)
    → NotIn ev (n ∷ d)
    → HasMarked (mark ev at ready s) timeout at (some ev) n (d, r) rest
    → (b : Bool)
    → HasMarked s timeout at ready ev
        ((if b then n ∷ d else []), (if b then r else n ∷ xs))
        (if b then rest else (some n, some ev, mark ev at ready s))
choose-HasMarked s timeout at ready ev n xs d r rest out (a, b, m) true = (
  a,
  b,
  Marked-cons s (mark ev at ready s) rest.2 ev at ready (n ∷ d) out (mark-Marked ev at ready s) m,
)
choose-HasMarked s timeout at ready ev n xs d r rest out h false =
    (refl, refl, mark-Marked ev at ready s)

pub expire-HasMarked :
    (xs : List ℕ) (f ev timeout at : ℕ) (ready p : Option ℕ) (s : Timers)
    → Linked s p (ev ∷ xs) none
    → Distinct (ev ∷ xs)
    → length (ev ∷ xs) ≤ f
    → HasMarked s timeout at ready ev (halves s timeout xs) (expire f ev timeout at ready s)
expire-HasMarked [] zero ev timeout at ready p s l k le = absurd (omega arith)
expire-HasMarked (n ∷ xs) zero ev timeout at ready p s l k le = absurd (omega arith)
expire-HasMarked [] (suc f) ev timeout at ready p s (_, e, _) k le =
    subst (HasMarked s timeout at ready ev ([], [])) (sym (expire-stop f ev timeout at ready s e))
      (refl, refl, mark-Marked ev at ready s)
expire-HasMarked (n ∷ xs) (suc f) ev timeout at ready p s (a, e, l) (out, k) le =
    let s1 = mark ev at ready s in
    let m = mark-Marked ev at ready s in
    let times : All (λ x. (s1.event x).timeout_at ≡ (s.event x).timeout_at) (n ∷ xs) =
      All-NotIn (λ x. (s1.event x).timeout_at ≡ (s.event x).timeout_at) ev (n ∷ xs) out
        (λ x ne. ground arith) in
    let same = halves-same s s1 timeout xs times.1 in
    let l1 =
      Linked-frame s s1 (some ev) none (n ∷ xs) (All_map (SameLinks s s1) (n ∷ xs) (λ x. m.links x))
        l in
    let later = expire-HasMarked xs f n timeout at (some ev) (some ev) s1 l1 k (omega arith) in
    let later0 : HasMarked s1 timeout at (some ev) n (halves s timeout xs)
        (expire f n timeout at (some ev) s1) =
      subst (λ h. HasMarked s1 timeout at (some ev) n h (expire f n timeout at (some ev) s1)) same
        later in
    let t = (s.event n).timeout_at in
    subst (HasMarked s timeout at ready ev (halves s timeout (n ∷ xs)))
      (sym (
        expire-next f ev timeout at n ready s e
        ∙ ap
            (λ x.
              if ltb (to_long x) timeout
              then expire f n timeout at (some ev) s1
              else (some n, some ev, s1))
            times.0))
      (choose-HasMarked s timeout at ready ev n xs (due s timeout xs) (not_due s timeout xs)
        (expire f n timeout at (some ev) s1) (out.0, due-NotIn s timeout ev xs out.1) later0
        (ltb (to_long t) timeout))
