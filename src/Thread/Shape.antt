-- ===== src/Thread/Shape.antt =====
-- What holds of the threads and VMs between any two steps, and the steps that keep it: those in which
-- one thread goes on in its VM.
use luasys.Base.{ℕ, ◌≤◌, ◌<◌, ◌≡◌, ◌≢◌, refl, ◌∙◌, ap, ◌⊎◌, true, Option, none, some}
use luasys.Thread.{Store, getvm}
use luasys.Thread.World.{World, Place, starting, inside, outside, closing, left, gone, fake, failed}
use luasys.Thread.Counts.{one_ref, owed, target, refs_of}

-- A VM that is closed has a main thread at one of these places.
abbrev pub IsPast : Place → Type 0
IsPast starting = ⊥
IsPast inside = ⊥
IsPast outside = ⊥
IsPast closing = ⊥
IsPast left = Unit
IsPast gone = Unit
IsPast fake = ⊥
IsPast failed = Unit

-- A thread that is in its VM or will enter it again
abbrev pub IsRunning : Place → Type 0
IsRunning starting = Unit
IsRunning inside = Unit
IsRunning outside = Unit
IsRunning closing = Unit
IsRunning left = ⊥
IsRunning gone = ⊥
IsRunning fake = ⊥
IsRunning failed = ⊥

pub record IsValid (w : World) : Type 0 where
  pub unmade : (t : ℕ) → w.next ≤ t → w.place t ≡ gone
  pub refs : (t r : ℕ) → t < w.next → (w.store.thread t).reftd ≡ some r → r < w.next
  pub vms :
      (t : ℕ)
      → t < w.next
      → (getvm t w.store < w.next) × (getvm (getvm t w.store) w.store ≡ getvm t w.store)
  pub subs :
      (t : ℕ)
      → t < w.next
      → w.place t ≢ fake
      → getvm t w.store ≢ t
      → (w.store.thread t).reftd ≡ some (getvm t w.store)
  pub counted : (v : ℕ) → (w.store.vm v).nref ≡ refs_of v w
  pub locked : (t : ℕ) → w.place t ≡ inside → (w.store.vm (getvm t w.store)).owner ≡ some t
  pub shut :
      (v : ℕ)
      → (w.store.vm v).closed ≡ true
      → (v < w.next) × IsPast (w.place v) × ((w.store.vm v).nref ≡ 0)

-- The data that say which thread belongs where stay.
abbrev pub Same : Store → Store → Type 0
Same s s' = (t : ℕ) → (getvm t s' ≡ getvm t s) × ((s'.thread t).reftd ≡ (s.thread t).reftd)

-- A step in which thread `t` goes to a place `q`
pub record Moves (t : ℕ) (q : Place) (w w' : World) : Type 0 where
  pub next : w'.next ≡ w.next
  pub at : w'.place t ≡ q
  pub others : (u : ℕ) → u ≢ t → w'.place u ≡ w.place u
  pub same : Same w.store w'.store
  pub nref : (v : ℕ) → (w'.store.vm v).nref ≡ (w.store.vm v).nref
  pub owner : (v : ℕ) → v ≢ getvm t w.store → (w'.store.vm v).owner ≡ (w.store.vm v).owner
  pub takes : q ≡ inside → (w'.store.vm (getvm t w.store)).owner ≡ some t
  pub closes :
      (v : ℕ)
      → (w'.store.vm v).closed ≡ true
      → ((w.store.vm v).closed ≡ true) ⊎ ((v ≡ t) × (q ≡ left) × ((w.store.vm v).nref ≡ 0))

-- The thread is the only one that can be in its VM.
abbrev pub IsAlone : ℕ → World → Type 0
IsAlone t w = (u : ℕ) → u ≢ t → getvm u w.store ≡ getvm t w.store → w.place u ≢ inside

-- Places at which a thread owes its reference
abbrev pub IsOwing : Place → Type 0
IsOwing starting = Unit
IsOwing inside = Unit
IsOwing outside = Unit
IsOwing closing = Unit
IsOwing left = Unit
IsOwing gone = ⊥
IsOwing fake = ⊥
IsOwing failed = Unit

pub owed-IsOwing : (p : Place) (u : Option ℕ) (v : ℕ) → IsOwing p → owed p u v ≡ one_ref u v
owed-IsOwing starting u v h = refl
owed-IsOwing inside u v h = refl
owed-IsOwing outside u v h = refl
owed-IsOwing closing u v h = refl
owed-IsOwing left u v h = refl
owed-IsOwing gone u v h = absurd h
owed-IsOwing fake u v h = absurd h
owed-IsOwing failed u v h = refl

pub IsRunning-IsOwing : (p : Place) → IsRunning p → IsOwing p
IsRunning-IsOwing starting h = tt
IsRunning-IsOwing inside h = tt
IsRunning-IsOwing outside h = tt
IsRunning-IsOwing closing h = tt
IsRunning-IsOwing left h = absurd h
IsRunning-IsOwing gone h = absurd h
IsRunning-IsOwing fake h = absurd h
IsRunning-IsOwing failed h = absurd h

pub not-IsPast : (p : Place) → IsRunning p → IsPast p → ⊥
not-IsPast starting h k = k
not-IsPast inside h k = k
not-IsPast outside h k = k
not-IsPast closing h k = k
not-IsPast left h k = h
not-IsPast gone h k = h
not-IsPast fake h k = h
not-IsPast failed h k = h

pub Same-target : (s s' : Store) (t : ℕ) → Same s s' → target s' t ≡ target s t
Same-target s s' t h =
    ap (λ (o : Option ℕ). elim o [ none ↦ none | some r ↦ some (getvm r s') ]) (h t).1
    ∙ elim (s.thread t).reftd
        as (λ o.
          (elim o [ none ↦ none | some r ↦ some (getvm r s') ])
          ≡ (elim o [ none ↦ none | some r ↦ some (getvm r s) ])) [
            | none ↦ refl
            | some r ↦ ap some (h r).0
          ]
