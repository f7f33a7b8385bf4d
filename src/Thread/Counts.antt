-- ===== src/Thread/Counts.antt =====
-- How many threads refer to a VM: the sum over the threads of what each one owes to its `nref`.
use native.Mathlib.Decide.{ℕ_discrete}
use luasys.Base.{
  ap, sym, ℕ, zero, suc, ◌+◌, ◌≤◌, ◌<◌, ◌≡◌, ◌≢◌, refl, Option, none, some, ◌==◌, if◌then◌else◌,
  arith,
}
use luasys.Thread.{Store, getvm}
use luasys.Thread.World.{World, Place, starting, inside, outside, closing, left, gone, fake, failed}

abbrev pub sum : ℕ → (ℕ → ℕ) → ℕ
sum zero f = 0
sum (suc n) f = sum n f + f n

pub sum-same : (n : ℕ) (f g : ℕ → ℕ) → ((t : ℕ) → t < n → f t ≡ g t) → sum n f ≡ sum n g
sum-same zero f g h = refl
sum-same (suc n) f g h =
    omega (arith, sum-same n f g (λ t lt. h t (omega arith)), h n (omega arith))

-- When the terms differ at one place only
pub sum-changed :
    (n : ℕ) (f g : ℕ → ℕ) (a : ℕ)
    → a < n
    → ((t : ℕ) → t < n → t ≢ a → f t ≡ g t)
    → sum n f + g a ≡ sum n g + f a
sum-changed zero f g a lt h = absurd (omega arith)
sum-changed (suc n) f g a lt h = elim (ℕ_discrete a n) [
  | yes e ↦
      let same = sum-same n f g (λ t l. h t (omega arith) (λ d. omega arith)) in
      omega (arith, same, ap f e, ap g e)
  | no ne ↦
      let last = h n (omega arith) (λ d. ne (sym d)) in
      omega (arith, sum-changed n f g a (omega arith) (λ t l. h t (omega arith)), last)
]

pub le-sum : (n : ℕ) (f : ℕ → ℕ) (a : ℕ) → a < n → f a ≤ sum n f
le-sum zero f a lt = absurd (omega arith)
le-sum (suc n) f a lt = elim (ℕ_discrete a n) [
  | yes e ↦ omega (arith, ap f e)
  | no ne ↦ omega (arith, le-sum n f a (omega arith))
]

pub sum-le : (n : ℕ) (f : ℕ → ℕ) → ((t : ℕ) → f t ≤ 1) → sum n f ≤ n
sum-le zero f h = omega arith
sum-le (suc n) f h = omega (arith, sum-le n f h, h n)

abbrev pub one_ref : Option ℕ → ℕ → ℕ
one_ref none v = 0
one_ref (some u) v = if u == v then 1 else 0

-- A thread that has not ended owes one reference to the VM of the thread that it refers to.
abbrev pub owed : Place → Option ℕ → ℕ → ℕ
owed starting u v = one_ref u v
owed inside u v = one_ref u v
owed outside u v = one_ref u v
owed closing u v = one_ref u v
owed left u v = one_ref u v
owed failed u v = one_ref u v
owed gone u v = 0
owed fake u v = 0

-- The VM of the thread that `t` refers to
abbrev pub target : Store → ℕ → Option ℕ
target s t = elim (s.thread t).reftd [ none ↦ none | some r ↦ some (getvm r s) ]

abbrev pub owes : World → ℕ → ℕ → ℕ
owes w v t = owed (w.place t) (target w.store t) v

-- The threads that still refer to VM `v`
abbrev pub refs_of : ℕ → World → ℕ
refs_of v w = sum w.next (owes w v)

one_ref-le : (u : Option ℕ) (v : ℕ) → one_ref u v ≤ 1
one_ref-le none v = omega arith
one_ref-le (some u) v = ground arith

pub owed-le : (p : Place) (u : Option ℕ) (v : ℕ) → owed p u v ≤ one_ref u v
owed-le starting u v = omega arith
owed-le inside u v = omega arith
owed-le outside u v = omega arith
owed-le closing u v = omega arith
owed-le left u v = omega arith
owed-le failed u v = omega arith
owed-le gone u v = omega arith
owed-le fake u v = omega arith

pub refs_of-le : (v : ℕ) (w : World) → refs_of v w ≤ w.next
refs_of-le v w =
    sum-le w.next (owes w v)
      λ t. omega (arith, owed-le (w.place t) (target w.store t) v, one_ref-le (target w.store t) v)
