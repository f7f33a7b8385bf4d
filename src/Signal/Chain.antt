-- ===== src/Signal/Chain.antt =====
-- The list of the events of a signal, and its handler, after `signal_add` and `signal_del`.
use luasys.Base.{
  ℕ, zero, suc, ◌+◌, ◌≤◌, ◌<◌, ◌≡◌, ◌≢◌, ◌⊎◌, refl, sym, ◌∙◌, ap, subst, Bool, true, false, Option,
  none, some, inl, inr, List, [], ◌∷◌, ◌++◌, length, ◌==◌, ==_iff, if◌then◌else◌, arith,
}
use luasys.TaskList.Ring.{NotIn, Distinct}
use luasys.Timeout.Moving.{Distinct-split, Distinct-append, All_weaken}
use luasys.Signal.{
  SignalNumbers, Signals, gethead, signo_of, set_next_object, set_head, set_handler, signal_add,
  signal_del, unlink_after,
}

-- The events that follow each other from `at` on
abbrev pub Chain : Signals → Option ℕ → List ℕ → Type 0
Chain s at [] = at ≡ none
Chain s at (x ∷ xs) = (at ≡ some x) × Chain s (s.event x).next_object xs

-- The list of a signal is `xs`, and the handler of the library is set just when it has an event.
pub record IsList (s : Signals) (i signo : ℕ) (xs : List ℕ) : Type 0 where
  pub chain : Chain s (s.events i) xs
  pub distinct : Distinct xs
  pub handler : s.handled signo ≡ (elim xs [ [] ↦ false | x ∷ ys ↦ true ])

Chain-other :
    (s : Signals) (a : ℕ) (o at : Option ℕ) (xs : List ℕ)
    → NotIn a xs
    → Chain s at xs
    → Chain (set_next_object a o s) at xs
Chain-other s a o at [] h c = c
Chain-other s a o at (x ∷ xs) (ne, h) (e, c) =
    let same : ((set_next_object a o s).event x).next_object ≡ (s.event x).next_object =
      ground arith in
    (
      e,
      subst (λ z. Chain (set_next_object a o s) z xs) (sym same)
          (Chain-other s a o (s.event x).next_object xs h c),
    )

-- The events are all that a list depends on.
Chain-same :
    (s s' : Signals) (at : Option ℕ) (xs : List ℕ)
    → ((x : ℕ) → (s'.event x).next_object ≡ (s.event x).next_object)
    → Chain s at xs
    → Chain s' at xs
Chain-same s s' at [] h c = c
Chain-same s s' at (x ∷ xs) h (e, c) =
    (e, subst (λ z. Chain s' z xs) (sym (h x)) (Chain-same s s' (s.event x).next_object xs h c))

unlink_after-found :
    (s : Signals) (f a b ev : ℕ)
    → (s.event a).next_object ≡ some b
    → unlink_after (suc f) a ev s ≡ (
        if b == ev
        then some (set_next_object a (s.event ev).next_object s)
        else unlink_after f b ev s)
unfolding unlink_after
unlink_after-found s f a b ev e =
    ap
      (λ (o : Option ℕ). elim o [
        | none ↦ none
        | some b ↦
            let rest = unlink_after f b ev s in
            if b == ev then some (set_next_object a (s.event ev).next_object s) else rest
      ])
      e

-- What the loop of `signal_del` leaves: the list from `a` on without `ev`, and all other links
pub record Unlinked (s s' : Signals) (at : Option ℕ) (a : ℕ) (xs ys : List ℕ) : Type 0 where
  pub chain : Chain s' at (a ∷ xs ++ ys)
  pub others : (y : ℕ) → NotIn y (a ∷ xs) → (s'.event y).next_object ≡ (s.event y).next_object
  pub heads : s'.events ≡ s.events
  pub handlers : s'.handled ≡ s.handled

NotIn-front : (x : ℕ) (xs ys : List ℕ) → NotIn x (xs ++ ys) → NotIn x xs
NotIn-front x [] ys h = tt
NotIn-front x (y ∷ xs) ys (ne, h) = (ne, NotIn-front x xs ys h)

NotIn-middle : (x ev : ℕ) (xs ys : List ℕ) → NotIn x (xs ++ ev ∷ ys) → x ≢ ev
NotIn-middle x ev [] ys h = h.0
NotIn-middle x ev (y ∷ xs) ys (ne, h) = NotIn-middle x ev xs ys h

pub unlink_after-Unlinked :
    (xs : List ℕ) (s : Signals) (f a ev : ℕ) (at : Option ℕ) (ys : List ℕ)
    → Chain s at (a ∷ xs ++ ev ∷ ys)
    → Distinct (a ∷ xs ++ ev ∷ ys)
    → length xs < f
    → (s' : Signals) × (unlink_after f a ev s ≡ some s') × Unlinked s s' at a xs ys
unlink_after-Unlinked xs s zero a ev at ys c d l = absurd (omega arith)
unlink_after-Unlinked [] s (suc f) a ev at ys (e, u) (out, d) l =
    let (n, c) = u in
    let next = (s.event ev).next_object in
    let s1 = set_next_object a next s in
    let own : (s1.event a).next_object ≡ next = ground arith in
    (
      s1,
      unlink_after-found s f a ev ev n
          ∙ ap (λ b. if b then some s1 else unlink_after f ev ev s) ((==_iff ev ev).1 refl),
      record {
        chain = (e, subst (λ z. Chain s1 z ys) (sym own) (Chain-other s a next next ys out.1 c));
        others = λ y (ne, _). ground arith;
        heads = refl;
        handlers = refl;
      },
    )
unlink_after-Unlinked (x ∷ xs) s (suc f) a ev at ys (e, u) (out, d) l =
    let (n, c) = u in
    let (s', r, m) =
      unlink_after-Unlinked xs s f x ev (s.event a).next_object ys (n, c) d (omega arith) in
    let apart = NotIn-middle x ev xs ys d.0 in
    let other : (x == ev) ≡ false = ground arith in
    (
      s',
      unlink_after-found s f a x ev n
          ∙ ap
              (λ b.
                if b
                then some (set_next_object a (s.event ev).next_object s)
                else unlink_after f x ev s)
              other
          ∙ r,
      record {
        chain = (
          e,
          subst (λ z. Chain s' z (x ∷ xs ++ ys))
              (sym (m.others a (NotIn-front a (x ∷ xs) (ev ∷ ys) out))) m.chain,
        );
        others = λ y (_, h). m.others y h;
        heads = m.heads;
        handlers = m.handlers;
      },
    )

abbrev add_at : SignalNumbers → ℕ → Bool → Signals → ℕ → Option ℕ → Option Signals
add_at n ev ok s i o = elim o [
  | some e ↦
      some
        (record (set_head i (some ev) (set_next_object ev (some e) s)) { nevents = s.nevents + 1 })
  | none ↦
      if ok
      then some
          (record (set_head i (some ev)
            (set_next_object ev none (set_handler (signo_of n (s.event ev)) true s))) {
              nevents = s.nevents + 1;
            })
      else none
]

signal_add-add_at :
    (n : SignalNumbers) (ev : ℕ) (ok : Bool) (s : Signals) (i : ℕ)
    → gethead n (signo_of n (s.event ev)) ≡ some i
    → signal_add n ev ok s ≡ add_at n ev ok s i (s.events i)
unfolding signal_add
signal_add-add_at n ev ok s i e =
    ap (λ (o : Option ℕ). elim o [ none ↦ none | some i ↦ add_at n ev ok s i (s.events i) ]) e

-- Adding an event puts it in front of the list of its signal, and sets the handler when the list was
-- empty: this is the only call that can fail, and then nothing is changed.
pub signal_add_lem :
    (n : SignalNumbers) (s : Signals) (i ev : ℕ) (xs : List ℕ) (ok : Bool)
    → gethead n (signo_of n (s.event ev)) ≡ some i
    → IsList s i (signo_of n (s.event ev)) xs
    → NotIn ev xs
    → ((s' : Signals) × (signal_add n ev ok s ≡ some s')
        × IsList s' i (signo_of n (s.event ev)) (ev ∷ xs)
        × (s'.nevents ≡ s.nevents + 1))
      ⊎ ((signal_add n ev ok s ≡ none) × (ok ≡ false) × (xs ≡ []))
signal_add_lem n s i ev [] true e k out =
    let signo = signo_of n (s.event ev) in
    let s1 = set_head i (some ev) (set_next_object ev none (set_handler signo true s)) in
    inl (
      record s1 { nevents = s.nevents + 1 },
      signal_add-add_at n ev true s i e ∙ ap (add_at n ev true s i) k.chain,
      record { chain = (ground arith, ground arith); distinct = (tt, tt); handler = ground arith },
      refl,
    )
signal_add_lem n s i ev [] false e k out =
    inr (signal_add-add_at n ev false s i e ∙ ap (add_at n ev false s i) k.chain, refl, refl)
signal_add_lem n s i ev (x ∷ xs) ok e k out =
    let s1 = set_next_object ev (some x) s in
    let s2 = record (set_head i (some ev) s1) { nevents = s.nevents + 1 } in
    let own : (s2.event ev).next_object ≡ some x = ground arith in
    let behind : Chain s1 (some x) (x ∷ xs) =
      (refl, (Chain-other s ev (some x) (some x) (x ∷ xs) out (refl, k.chain.1)).1) in
    inl (
      s2,
      signal_add-add_at n ev ok s i e ∙ ap (add_at n ev ok s i) k.chain.0,
      record {
        chain = (
          ground arith,
          subst (λ z. Chain s2 z (x ∷ xs)) (sym own)
              (Chain-same s1 s2 (some x) (x ∷ xs) (λ y. refl) behind),
        );
        distinct = (out, k.distinct);
        handler = k.handler;
      },
      refl,
    )

abbrev after_head : ℕ → Signals → Option ℕ → Signals
after_head signo s next = elim next [ none ↦ set_handler signo false s | some b ↦ s ]

abbrev del_at : SignalNumbers → ℕ → ℕ → Signals → ℕ → Option ℕ → Option Signals
del_at n f ev s i o =
    let signo = signo_of n (s.event ev) in
    elim o [
      | none ↦ none
      | some e ↦
          let next = (s.event ev).next_object in
          let s1 = set_head i next s in
          let rest = unlink_after f e ev s in
          if e == ev
          then some (elim next [ none ↦ set_handler signo false s1 | some b ↦ s1 ])
          else rest
    ]

signal_del-del_at :
    (n : SignalNumbers) (f ev : ℕ) (s : Signals) (i : ℕ)
    → gethead n (signo_of n (s.event ev)) ≡ some i
    → signal_del n f ev s ≡ del_at n f ev s i (s.events i)
unfolding signal_del
signal_del-del_at n f ev s i e =
    ap (λ (o : Option ℕ). elim o [ none ↦ none | some i ↦ del_at n f ev s i (s.events i) ]) e

-- Deleting an event of the list leaves the others, in order, and sets the default handler when none
-- is left. The loop ends, as the list has as many events as there is fuel, or fewer.
pub signal_del_lem :
    (n : SignalNumbers) (s : Signals) (i f ev : ℕ) (xs ys : List ℕ)
    → gethead n (signo_of n (s.event ev)) ≡ some i
    → IsList s i (signo_of n (s.event ev)) (xs ++ ev ∷ ys)
    → length xs ≤ f
    → (s' : Signals) × (signal_del n f ev s ≡ some s')
      × IsList s' i (signo_of n (s.event ev)) (xs ++ ys)
signal_del_lem n s i f ev [] [] e k l =
    let signo = signo_of n (s.event ev) in
    let s1 = set_head i (s.event ev).next_object s in
    (
      set_handler signo false s1,
      signal_del-del_at n f ev s i e
          ∙ ap (del_at n f ev s i) k.chain.0
          ∙ ap
              (λ b.
                if b
                then some (after_head signo s1 (s.event ev).next_object)
                else unlink_after f ev ev s)
              ((==_iff ev ev).1 refl)
          ∙ ap (λ o. some (after_head signo s1 o)) k.chain.1,
      record { chain = let z = k.chain.1 in ground arith; distinct = tt; handler = ground arith },
    )
signal_del_lem n s i f ev [] (y ∷ ys) e k l =
    let signo = signo_of n (s.event ev) in
    let rest = k.chain.1 in
    let s1 = set_head i (s.event ev).next_object s in
    (
      s1,
      signal_del-del_at n f ev s i e
          ∙ ap (del_at n f ev s i) k.chain.0
          ∙ ap
              (λ b.
                if b
                then some (after_head signo s1 (s.event ev).next_object)
                else unlink_after f ev ev s)
              ((==_iff ev ev).1 refl)
          ∙ ap (λ o. some (after_head signo s1 o)) rest.0,
      record {
        chain = (
          let z = rest.0 in ground arith,
          Chain-same s s1 (s.event y).next_object ys (λ x. refl) rest.1,
        );
        distinct = k.distinct.1;
        handler = k.handler;
      },
    )
signal_del_lem n s i f ev (x ∷ xs) ys e k l =
    let signo = signo_of n (s.event ev) in
    let s1 = set_head i (s.event ev).next_object s in
    let (s', r, m) =
      unlink_after-Unlinked xs s f x ev (s.events i) ys k.chain k.distinct (omega arith) in
    let apart = NotIn-middle x ev xs ys k.distinct.0 in
    let other : (x == ev) ≡ false = ground arith in
    let (dx, de, far) = Distinct-split (x ∷ xs) (ev ∷ ys) k.distinct in
    (
      s',
      signal_del-del_at n f ev s i e
          ∙ ap (del_at n f ev s i) k.chain.0
          ∙ ap
              (λ b.
                if b
                then some (after_head signo s1 (s.event ev).next_object)
                else unlink_after f x ev s)
              other
          ∙ r,
      record {
        chain = subst (λ h. Chain s' (h i) (x ∷ xs ++ ys)) (sym m.heads) m.chain;
        distinct = Distinct-append (x ∷ xs) ys dx de.1 (All_weaken ev (x ∷ xs) ys far);
        handler = ap (λ h. h signo) m.handlers ∙ k.handler;
      },
    )
