-- ===== src/Evq/MaxBit.antt =====
-- `getmaxbit` is the position of the highest bit that is set.
use Prim.Native.Nat.{max, min, bit_or}
use luasys.Base.{
  ℕ, zero, suc, ◌+◌, ◌-◌, ◌*◌, ◌/◌, ◌%◌, ◌^◌, ◌<◌, ◌≤◌, ◌≡◌, refl, sym, ap, arith, ◌∙◌, get_or,
  Bool, true, false, ◌==◌, ◌&&◌, Bool-cases, inl, inr, subst, ==_iff,
}
use native.Mathlib.Nat.{pow-suc, pow-le-pow_right, one-le-pow}
use luasys.Evq.{getmaxbit, smear, or_shifted, bit_position}
use luasys.Evq.Digits.{bit_or-half, bit_or-parity}

-- A function on binary numbers that takes halves to halves, and whose lowest digit says whether
-- any of the lowest digits below `m` is set.
abbrev Halves : (ℕ → ℕ) → Type 0
Halves f = (v : ℕ) → f (v / 2) ≡ f v / 2

abbrev Gathers : ℕ → (ℕ → ℕ) → Type 0
Gathers m f = (v : ℕ) → f v % 2 ≡ min 1 (v % m)

module _ (d : ℕ) (f : ℕ → ℕ) where
  shifted-Halves : ((x : ℕ) → x / 2 / d ≡ x / d / 2) → Halves f → Halves (λ v. or_shifted d (f v))
  unfolding or_shifted
  shifted-Halves swap h v =
      ap (or_shifted d) (h v)
      ∙ ap (λ x. bit_or (f v / 2) x) (swap (f v))
      ∙ sym (bit_or-half (f v) (f v / d))

  shifted-parity :
      ((v : ℕ) → f (v / d) ≡ f v / d)
      → Gathers d f
      → (v : ℕ) → or_shifted d (f v) % 2 ≡ max (min 1 (v % d)) (min 1 (v / d % d))
  unfolding or_shifted
  shifted-parity c g v = omega (arith, bit_or-parity (f v) (f v / d), c v, g v, g (v / d))

module _ (f : ℕ → ℕ) (h : Halves f) where
  quarter : (v : ℕ) → f (v / 4) ≡ f v / 4
  quarter v = ap f (omega arith) ∙ h (v / 2) ∙ omega (arith, h v)

  by_16 : (v : ℕ) → f (v / 16) ≡ f v / 16
  by_16 v = ap f (omega arith) ∙ quarter (v / 4) ∙ omega (arith, quarter v)

  by_256 : (v : ℕ) → f (v / 256) ≡ f v / 256
  by_256 v = ap f (omega arith) ∙ by_16 (v / 16) ∙ omega (arith, by_16 v)

  by_65536 : (v : ℕ) → f (v / 65536) ≡ f v / 65536
  by_65536 v = ap f (omega arith) ∙ by_256 (v / 256) ∙ omega (arith, by_256 v)

-- The value after each of the assignments
abbrev f1 : ℕ → ℕ
f1 v = or_shifted (2 ^ 1) v

abbrev f2 : ℕ → ℕ
f2 v = or_shifted (2 ^ 2) (f1 v)

abbrev f3 : ℕ → ℕ
f3 v = or_shifted (2 ^ 4) (f2 v)

abbrev f4 : ℕ → ℕ
f4 v = or_shifted (2 ^ 8) (f3 v)

f1-Halves : Halves f1
f1-Halves = shifted-Halves 2 (λ v. v) (λ x. omega arith) (λ v. refl)

f2-Halves : Halves f2
f2-Halves = shifted-Halves 4 f1 (λ x. omega arith) f1-Halves

f3-Halves : Halves f3
f3-Halves = shifted-Halves 16 f2 (λ x. omega arith) f2-Halves

f4-Halves : Halves f4
f4-Halves = shifted-Halves 256 f3 (λ x. omega arith) f3-Halves

smear-Halves : Halves smear
unfolding smear
smear-Halves = shifted-Halves 65536 f4 (λ x. omega arith) f4-Halves

f1-Gathers : Gathers 4 f1
f1-Gathers v = omega (arith, shifted-parity 2 (λ x. x) (λ x. refl) (λ x. omega arith) v)

f2-Gathers : Gathers 16 f2
f2-Gathers v = omega (arith, shifted-parity 4 f1 (quarter f1 f1-Halves) f1-Gathers v)

f3-Gathers : Gathers 256 f3
f3-Gathers v = omega (arith, shifted-parity 16 f2 (by_16 f2 f2-Halves) f2-Gathers v)

f4-Gathers : Gathers 65536 f4
f4-Gathers v = omega (arith, shifted-parity 256 f3 (by_256 f3 f3-Halves) f3-Gathers v)

smear-Gathers : Gathers (2 ^ 32) smear
unfolding smear
smear-Gathers v = omega (arith, shifted-parity 65536 f4 (by_65536 f4 f4-Halves) f4-Gathers v)

double : (n : ℕ) → 2 ^ suc n ≡ 2 * 2 ^ n
double n = pow-suc 2 n ∙ omega arith

in_range : (n : ℕ) → n < 32 → 2 ^ suc n ≤ 2 ^ 32
in_range n h = pow-le-pow_right {n = 2} (omega arith) {i = suc n} {j = 32} (omega arith)

-- All bits up to the highest one become set.
smear_lem : (n v : ℕ) → n < 32 → 2 ^ n ≤ v → v < 2 ^ suc n → smear v + 1 ≡ 2 ^ suc n
unfolding smear or_shifted
smear_lem zero v h l u = let one : v ≡ 1 = omega arith in ap (λ x. smear x + 1) one
smear_lem (suc n) v h l u = omega (
  arith,
  smear-Halves v,
  smear-Gathers v,
  double n,
  double (suc n),
  in_range (suc n) h,
  one-le-pow n 2,
  smear_lem n (v / 2) (omega arith) (omega (arith, double n)) (omega (arith, double (suc n))),
)

-- What the multiplication and the table find, when all bits up to the one at `n` are set.
abbrev found : ℕ → ℕ
found n = get_or bit_position ((2 ^ suc n - 1) * 0x07C4ACDD % 2 ^ 32 / 2 ^ 27) 0

looks_up : ℕ → Bool
looks_up zero = true
looks_up (suc n) = (found n == n) && looks_up n

pub both : (a b : Bool) → (a && b) ≡ true → (a ≡ true) × (b ≡ true)
both true true e = (refl, refl)
both true false e = absurd (cc)
both false b e = absurd (cc)

found-all : (m n : ℕ) → looks_up m ≡ true → n < m → found n ≡ n
unfolding looks_up
found-all zero n e h = absurd (omega arith)
found-all (suc m) n e h =
    let (here, rest) = both (found m == m) (looks_up m) e in
    elim (Bool-cases (n == m)) [
      | inl q ↦
          let same : n ≡ m = ground (arith, q) in
          subst (λ k. found k ≡ k) (sym same) ((==_iff (found m) m).0 here)
      | inr q ↦ found-all m n rest (ground (arith, q))
    ]

found-32 : looks_up 32 ≡ true
unfolding looks_up
found-32 = refl

-- `getmaxbit` of an `unsigned int` that is not 0 is the position of its highest bit, the logarithm to
-- the base 2.
pub getmaxbit_log : (n v : ℕ) → n < 32 → 2 ^ n ≤ v → v < 2 ^ suc n → getmaxbit v ≡ n
unfolding getmaxbit
getmaxbit_log n v h l u =
    let all : smear v ≡ 2 ^ suc n - 1 = omega (arith, smear_lem n v h l u) in
    ap (λ x. get_or bit_position (x * 0x07C4ACDD % 2 ^ 32 / 2 ^ 27) 0) all
    ∙ found-all 32 n found-32 h
