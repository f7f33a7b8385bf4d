-- ===== src/Evq/Live.antt =====
-- The events of a queue over any sequence of allocations and deletions.
use luasys.Base.{
  ℕ, zero, suc, ◌+◌, ◌^◌, ◌<◌, ◌≤◌, ◌≡◌, refl, ap, subst, arith, ◌∙◌, Option, none, some, List, [],
  ◌∷◌, ◌++◌, get_elem?, ltb, ◌==◌, Bool-cases, inl, inr,
}
use luasys.TaskList.Times.{times, times-append}
use luasys.Evq.{Slot, Alloc, new_event, free_event, new_alloc, locate}
use luasys.Evq.Ids.{ids, Located, AllLocated, created, Valid, Given, new_event-Given, one_if_bound}
use native.Mathlib.Nat.{pow-le-pow_right}

-- The allocator with the events that are in use.
pub record Events : Type 0 where
  pub alloc : Alloc
  pub used : List Slot

abbrev pub after_new : Option (Slot × Alloc) → Events → Events
after_new none s = s
after_new (some (ev, a)) s = record { alloc = a; used = ev ∷ s.used }

pub data Step (s : Events) : Events → Type 0 where
  allocates : Step s (after_new (new_event s.alloc) s)
  frees :
      (ev : Slot) (xs ys : List Slot)
      → s.used ≡ xs ++ ev ∷ ys
      → Step s (record { alloc = free_event ev s.alloc; used = xs ++ ys })

pub data Reach (s : Events) : Events → Type 0 where
  here : Reach s s
  next : {t u : Events} → Reach s t → Step t u → Reach s u

abbrev pub no_events : Events
no_events = record { alloc = new_alloc; used = [] }

ids-append : (xs ys : List Slot) → ids (xs ++ ys) ≡ ids xs ++ ids ys
ids-append [] ys = refl
ids-append (x ∷ xs) ys = ap (λ l. x.ev_id ∷ l) (ids-append xs ys)

times-ids :
    (xs ys : List Slot) (j : ℕ) → times j (ids (xs ++ ys)) ≡ times j (ids xs) + times j (ids ys)
times-ids xs ys j = ap (times j) (ids-append xs ys) ∙ times-append (ids xs) (ids ys) j

-- One of the events taken out
AllLocated-split :
    (xs : List Slot) (ev : Slot) (ys : List Slot)
    → AllLocated (xs ++ ev ∷ ys)
    → Located ev × AllLocated (xs ++ ys)
AllLocated-split [] ev ys h = h
AllLocated-split (x ∷ xs) ev ys (h, hs) =
    let (e, rest) = AllLocated-split xs ev ys hs in (e, (h, rest))

free_event-Valid :
    (ev : Slot) (xs ys used : List Slot) (a : Alloc)
    → used ≡ xs ++ ev ∷ ys
    → Valid a used
    → Valid (free_event ev a) (xs ++ ys)
unfolding free_event
free_event-Valid ev xs ys used a e v =
    let (there, others) = AllLocated-split xs ev ys (subst AllLocated e v.located) in
    record {
      index = v.index;
      in_buffer = v.in_buffer;
      at_end = v.at_end;
      buffers = v.buffers;
      once = λ x. omega (
        arith,
        v.once x,
        ap (λ l. times x (ids l)) e,
        times-ids xs (ev ∷ ys) x,
        times-ids xs ys x,
      );
      located = others;
      free_located = (there, v.free_located);
    }

after_new-Valid :
    (s : Events) (o : Option (Slot × Alloc))
    → Valid s.alloc s.used
    → Given s.used s.alloc o
    → Valid (after_new o s).alloc (after_new o s).used
after_new-Valid s none v g = v
after_new-Valid s (some (ev, a)) v (z, w) = w

pub new_alloc-Valid : Valid new_alloc []
unfolding new_alloc
new_alloc-Valid = record {
  index = omega arith;
  in_buffer = omega arith;
  at_end = λ e. refl;
  buffers = λ j. ground arith;
  once = λ x. ground arith;
  located = tt;
  free_located = tt;
}

pub Reach-Valid : {s t : Events} → Reach s t → Valid s.alloc s.used → Valid t.alloc t.used
Reach-Valid here v = v
Reach-Valid {s} (next {t} r allocates) v =
    let w = Reach-Valid r v in
    after_new-Valid t (new_event t.alloc) w (new_event-Given t.alloc t.used w)
Reach-Valid (next {t} r (frees ev xs ys e)) v =
    free_event-Valid ev xs ys t.used t.alloc e (Reach-Valid r v)

nth-Located :
    (ss : List Slot) (i : ℕ) (ev : Slot) → AllLocated ss → get_elem? ss i ≡ some ev → Located ev
nth-Located [] i ev h e = absurd (cc)
nth-Located (s ∷ ss) zero ev h e = subst (λ o. OfOption o) e h.0
  where
    OfOption : Option Slot → Type 0
    OfOption none = Unit
    OfOption (some x) = Located x
nth-Located (s ∷ ss) (suc i) ev h e = nth-Located ss i ev h.1 e

-- After any allocations and deletions of events, what `levq_done` computes from the identifier of an
-- event in use is its buffer and its place there, and the place is inside of the buffer.
pub locate-used :
    {t : Events} (i : ℕ) (ev : Slot)
    → Reach no_events t
    → get_elem? t.used i ≡ some ev
    → (locate ev.ev_id ≡ (ev.buffer, ev.place)) × (ev.place < 2 ^ ev.buffer)
locate-used {t} i ev r e =
    let (a, b, c) = nth-Located t.used i ev (Reach-Valid r new_alloc-Valid).located e in (a, b)

created_bound : (a : Alloc) (used : List Slot) → Valid a used → created a < 2 ^ 25
created_bound a used v = elim (Bool-cases (a.buf_index == 19)) [
  | inl e ↦
      let end : a.buf_index ≡ 19 = ground (arith, e) in
      let whole : 2 ^ (a.buf_index + 6) ≡ 2 ^ 25 = ap (λ k. 2 ^ (k + 6)) end in
      omega (arith, v.at_end end, whole)
  | inr e ↦
      let low : a.buf_index + 6 ≤ 24 = ground (arith, e, v.index) in
      let half : 2 ^ (a.buf_index + 6) ≤ 2 ^ 24 =
        pow-le-pow_right {n = 2} (omega arith) {i = a.buf_index + 6} {j = 24} low in
      omega (arith, v.in_buffer, half)
]

-- After any allocations and deletions of events, no identifier is used twice or both used and free,
-- and each identifier that is used is below 2 ^ 25, hence in the range of `int`.
pub used-bounds :
    {t : Events} (x : ℕ)
    → Reach no_events t
    → (times x (ids t.used) + times x (ids t.alloc.ev_free) ≤ 1)
      × (1 ≤ times x (ids t.used) → x < 2 ^ 25)
used-bounds {t} x r =
    let v = Reach-Valid r new_alloc-Valid in
    let few = created_bound t.alloc t.used v in
    (
      omega (arith, v.once x, one_if_bound (ltb x (created t.alloc))),
      λ h. ground (arith, v.once x, few),
    )
