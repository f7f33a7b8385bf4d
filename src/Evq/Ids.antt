-- ===== src/Evq/Ids.antt =====
-- The identifiers of events: each of the first so many numbers is that of one event, in use or free.
use luasys.Base.{
  ℕ, ◌+◌, ◌-◌, ◌^◌, ◌<◌, ◌≤◌, ◌≡◌, refl, sym, ap, subst, arith, ◌∙◌, Bool, true, false, ◌==◌, ◌&&◌,
  ◌||◌, Option, none, some, List, [], ◌∷◌, ltb, leb, if◌then◌else◌, on_branches, Bool-cases, inl,
  inr,
}
use luasys.TaskList.Times.{one_if, times}
use luasys.Evq.{Slot, Alloc, new_slot, new_event, locate, first_id, buf_first, buf_last}
use luasys.Evq.Locate.{next_length, locate-first_id, first_id_lem, quarters}

abbrev pub ids : List Slot → List ℕ
ids [] = []
ids (s ∷ ss) = s.ev_id ∷ ids ss

-- An event that its identifier leads back to, and that is inside of its buffer.
abbrev pub Located : Slot → Type 0
Located s =
    (locate s.ev_id ≡ (s.buffer, s.place)) × (s.place < 2 ^ s.buffer) × (s.buffer ≤ buf_last)

abbrev pub AllLocated : List Slot → Type 0
AllLocated [] = Unit
AllLocated (s ∷ ss) = Located s × AllLocated ss

-- The number of events that were made, by the last buffer and its used events.
abbrev pub created : Alloc → ℕ
created a = 2 ^ (a.buf_index + buf_first) - 64 + a.buf_nevents

pub record Valid (a : Alloc) (used : List Slot) : Type 0 where
  pub index : a.buf_index ≤ 19
  pub in_buffer : a.buf_nevents < 2 ^ (a.buf_index + buf_first)
  pub at_end : a.buf_index ≡ 19 → a.buf_nevents ≡ 0
  pub buffers :
      (j : ℕ)
      → a.has_buffer (j + buf_first)
        ≡ (ltb j a.buf_index || ((j == a.buf_index) && ltb 0 a.buf_nevents))
  pub once : (x : ℕ) → times x (ids used) + times x (ids a.ev_free) ≡ one_if (ltb x (created a))
  pub located : AllLocated used
  pub free_located : AllLocated a.ev_free

-- What a request for an event comes to: the error when there is no free event and the last buffer is
-- full, and else an event whose identifier nobody uses.
abbrev pub Given : List Slot → Alloc → Option (Slot × Alloc) → Type 0
Given used a none = (a.ev_free ≡ []) × (created a ≡ 2 ^ 25 - 64)
Given used a (some (ev, b)) = (times ev.ev_id (ids used) ≡ 0) × Valid b (ev ∷ used)

pub one_if_bound : (b : Bool) → one_if b ≤ 1
one_if_bound true = omega arith
one_if_bound false = omega arith

-- An event from the list of free ones
reuse-Given :
    (ev : Slot) (rest used : List Slot) (a : Alloc)
    → a.ev_free ≡ ev ∷ rest
    → Valid a used
    → Given used a (some (ev, record a { ev_free = rest }))
reuse-Given ev rest used a e v =
    let total : times ev.ev_id (ids a.ev_free) ≡ times ev.ev_id (ids (ev ∷ rest)) =
      ap (λ l. times ev.ev_id (ids l)) e in
    let (here, others) : AllLocated (ev ∷ rest) = subst AllLocated e v.free_located in
    (
      ground (arith, v.once ev.ev_id, total, one_if_bound (ltb ev.ev_id (created a))),
      record {
        index = v.index;
        in_buffer = v.in_buffer;
        at_end = v.at_end;
        buffers = v.buffers;
        once = λ x. omega (arith, v.once x, ap (λ l. times x (ids l)) e);
        located = (here, v.located);
        free_located = others;
      },
    )

-- The identifier of a new event is the number of those made before.
new_id :
    (a : Alloc) → a.buf_index < 19 → a.buf_nevents + first_id (2 ^ (a.buf_index + 6)) ≡ created a
new_id a h = omega (arith, first_id_lem a.buf_index (omega arith))

module _ (a : Alloc) (used : List Slot) (v : Valid a used) where
  fresh_id : times (created a) (ids used) ≡ 0
  fresh_id = ground (arith, v.once (created a))

  fresh_once :
      (id x : ℕ)
      → id ≡ created a
      → (one_if (x == id) + times x (ids used)) + times x (ids a.ev_free)
        ≡ one_if (ltb x (created a + 1))
  fresh_once id x e = ground (arith, v.once x, e)

  below_end : 0 < a.buf_nevents → a.buf_index < 19
  below_end h = elim (Bool-cases (a.buf_index == 19)) [
    | inl e ↦ let z : a.buf_nevents ≡ 0 = v.at_end (ground (arith, e)) in absurd (omega arith)
    | inr e ↦ ground (arith, e, v.index)
  ]

  -- The last buffer has a place left, and is full with it or is not.
  in_last :
      (full : Bool)
      → full ≡ leb (2 ^ (a.buf_index + 6)) (a.buf_nevents + 1)
      → a.has_buffer (a.buf_index + 6) ≡ true
      → Given used a (
          some (
            record {
              buffer = a.buf_index + 6;
              place = a.buf_nevents;
              ev_id = a.buf_nevents + first_id (2 ^ (a.buf_index + 6));
            },
            record a {
              buf_nevents = if full then 0 else a.buf_nevents + 1;
              buf_index = if full then a.buf_index + 1 else a.buf_index;
            },
          ))
  in_last true e has =
      let k : ℕ = a.buf_index in
      let n : ℕ = a.buf_nevents in
      let some_used : 0 < n = ground (arith, v.buffers k, has) in
      let below : k < 19 = below_end some_used in
      let id = new_id a below in
      let (q1, q2, q3) = quarters k in
      let whole : n + 1 ≡ 2 ^ (k + 6) = ground (arith, e, v.in_buffer) in
      let larger = next_length k in
      (
        ap (λ x. times x (ids used)) id ∙ fresh_id,
        record {
          index = omega arith;
          in_buffer = omega (arith, larger);
          at_end = λ z. refl;
          buffers = λ j. ground (arith, v.buffers j);
          once = λ x.
              fresh_once (n + first_id (2 ^ (k + 6))) x id
              ∙ ap (λ y. one_if (ltb x y)) (omega (arith, larger));
          located = ((locate-first_id k n below v.in_buffer, v.in_buffer, omega arith), v.located);
          free_located = v.free_located;
        },
      )
  in_last false e has =
      let k : ℕ = a.buf_index in
      let n : ℕ = a.buf_nevents in
      let some_used : 0 < n = ground (arith, v.buffers k, has) in
      let below : k < 19 = below_end some_used in
      let id = new_id a below in
      (
        ap (λ x. times x (ids used)) id ∙ fresh_id,
        record {
          index = v.index;
          in_buffer = ground (arith, e);
          at_end = λ z. absurd (omega arith);
          buffers = λ j. ground (arith, v.buffers j);
          once = λ x.
              fresh_once (n + first_id (2 ^ (k + 6))) x id
              ∙ ap (λ y. one_if (ltb x y)) (omega arith);
          located = ((locate-first_id k n below v.in_buffer, v.in_buffer, omega arith), v.located);
          free_located = v.free_located;
        },
      )

  -- A new buffer is made.
  in_new :
      a.has_buffer (a.buf_index + 6) ≡ false
      → a.buf_index < 19
      → Given used a (
          some (
            record {
              buffer = a.buf_index + 6;
              place = 0;
              ev_id = a.buf_nevents + first_id (2 ^ (a.buf_index + 6));
            },
            record a {
              buf_nevents = 1;
              has_buffer = λ j. if j == a.buf_index + 6 then true else a.has_buffer j;
            },
          ))
  in_new has below =
      let k : ℕ = a.buf_index in
      let n : ℕ = a.buf_nevents in
      let none_used : n ≡ 0 = ground (arith, v.buffers k, has) in
      let id = new_id a below in
      let (q1, q2, q3) = quarters k in
      (
        ap (λ x. times x (ids used)) id ∙ fresh_id,
        record {
          index = v.index;
          in_buffer = omega (arith, q1);
          at_end = λ z. absurd (omega arith);
          buffers = λ j. ground (arith, v.buffers j);
          once = λ x.
              fresh_once (n + first_id (2 ^ (k + 6))) x id
              ∙ ap (λ y. one_if (ltb x y)) (omega arith);
          located = (
            (
              ap (λ y. locate (y + first_id (2 ^ (k + 6)))) none_used
                  ∙ locate-first_id k 0 below (omega (arith, q1)),
              omega (arith, q1),
              omega arith,
            ),
            v.located,
          );
          free_located = v.free_located;
        },
      )

  new_slot-Given : a.ev_free ≡ [] → Given used a (new_slot a)
  unfolding new_slot
  new_slot-Given e =
      let k : ℕ = a.buf_index in
      let n : ℕ = a.buf_nevents in
      let full : Bool = leb (2 ^ (k + 6)) (n + 1) in
      let id : ℕ = n + first_id (2 ^ (k + 6)) in
      let at_last : Option (Slot × Alloc) = some (
        record { buffer = k + 6; place = n; ev_id = id },
        record a { buf_nevents = if full then 0 else n + 1; buf_index = if full then k + 1 else k },
      ) in
      let at_new : Option (Slot × Alloc) = some (
        record { buffer = k + 6; place = 0; ev_id = id },
        record a { buf_nevents = 1; has_buffer = λ j. if j == k + 6 then true else a.has_buffer j },
      ) in
      on_branches (Given used a) (a.has_buffer (k + 6)) at_last
        (if ltb buf_last (k + 6) then none else at_new) (λ has. in_last full refl has)
        (λ has.
          on_branches (Given used a) (ltb buf_last (k + 6)) none at_new
            (λ y.
              let end : k ≡ 19 = ground (arith, y, v.index) in
              let z : n ≡ 0 = v.at_end end in (e, ap (λ j. 2 ^ (j + 6) - 64 + n) end ∙ omega arith))
            (λ y. in_new has (ground (arith, y))))

-- `levq_new_event` on a valid state: it fails only when no event is free and all buffers are full,
-- with 2 ^ 25 - 64 events; else it returns an event that is not in use, and the state stays valid.
pub new_event-Given : (a : Alloc) (used : List Slot) → Valid a used → Given used a (new_event a)
unfolding new_event
new_event-Given a used v = by_free a.ev_free refl
  where
    by_free :
        (l : List Slot)
        → a.ev_free ≡ l
        → Given used a (elim a.ev_free [
          | ev ∷ rest ↦ some (ev, record a { ev_free = rest })
          | [] ↦ new_slot a
        ])
    by_free [] e =
        subst
          (λ l.
            Given used a
              (elim l [ ev ∷ rest ↦ some (ev, record a { ev_free = rest }) | [] ↦ new_slot a ]))
          (sym e) (new_slot-Given a used v e)
    by_free (ev ∷ rest) e =
        subst
          (λ l.
            Given used a
              (elim l [ ev ∷ rest ↦ some (ev, record a { ev_free = rest }) | [] ↦ new_slot a ]))
          (sym e) (reuse-Given ev rest used a e v)
