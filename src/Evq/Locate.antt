-- ===== src/Evq/Locate.antt =====
-- The identifiers that events get lead back to their buffers and places.
use Prim.Native.Nat.{bit_or}
use luasys.Base.{
  ℕ, zero, suc, ◌+◌, ◌-◌, ◌*◌, ◌/◌, ◌^◌, ◌<◌, ◌≤◌, ◌≡◌, refl, sym, ap, arith, ◌∙◌, Bool, true, ◌==◌,
  ◌&&◌, Bool-cases, inl, inr, subst, ==_iff,
}
use luasys.Evq.{first_id, locate, getmaxbit}
use luasys.Evq.Digits.{bit_or-63}
use luasys.Evq.MaxBit.{getmaxbit_log, both}
use native.Mathlib.Nat.{pow-suc, one-le-pow}

checks_first : ℕ → Bool
unfolding first_id
checks_first zero = true
checks_first (suc k) = (first_id (2 ^ (k + 6)) + 64 == 2 ^ (k + 6)) && checks_first k

first_id-all : (m k : ℕ) → checks_first m ≡ true → k < m → first_id (2 ^ (k + 6)) + 64 ≡ 2 ^ (k + 6)
unfolding checks_first
first_id-all zero k e h = absurd (omega arith)
first_id-all (suc m) k e h =
    let (here, rest) = both (first_id (2 ^ (m + 6)) + 64 == 2 ^ (m + 6)) (checks_first m) e in
    elim (Bool-cases (k == m)) [
      | inl q ↦
          let same : k ≡ m = ground (arith, q) in
          subst (λ j. first_id (2 ^ (j + 6)) + 64 ≡ 2 ^ (j + 6)) (sym same)
            ((==_iff (first_id (2 ^ (m + 6)) + 64) (2 ^ (m + 6))).0 here)
      | inr q ↦ first_id-all m k rest (ground (arith, q))
    ]

first_id-checked : checks_first 25 ≡ true
unfolding checks_first first_id
first_id-checked = refl

pub first_id_lem : (k : ℕ) → k < 25 → first_id (2 ^ (k + 6)) + 64 ≡ 2 ^ (k + 6)
first_id_lem k h = first_id-all 25 k first_id-checked h

times_64 : (k : ℕ) → 2 ^ (k + 6) ≡ 64 * 2 ^ k
times_64 zero = refl
times_64 (suc k) =
    let next : 2 ^ (suc k + 6) ≡ 2 ^ suc (k + 6) = ap (λ n. 2 ^ n) (omega arith) in
    next ∙ omega (arith, pow-suc 2 (k + 6), pow-suc 2 k, times_64 k)

pub quarters : (k : ℕ) → (2 ^ (k + 6) ≡ 64 * 2 ^ k) × (2 ^ suc (k + 6) ≡ 128 * 2 ^ k) × (1 ≤ 2 ^ k)
quarters k =
    (times_64 k, omega (arith, pow-suc 2 (k + 6), times_64 k), one-le-pow k 2 (omega arith))

pub next_length : (k : ℕ) → 2 ^ (k + 1 + 6) ≡ 2 * 2 ^ (k + 6)
next_length k =
    let step : 2 ^ (k + 1 + 6) ≡ 2 ^ suc (k + 6) = ap (λ n. 2 ^ n) (omega arith) in
    step ∙ omega (arith, pow-suc 2 (k + 6))

-- The identifier of a place in a buffer leads back to both.
pub locate-first_id :
    (k n : ℕ) → k < 19 → n < 2 ^ (k + 6) → locate (n + first_id (2 ^ (k + 6))) ≡ (k + 6, n)
unfolding locate
locate-first_id k n h l =
    let id : ℕ = n + first_id (2 ^ (k + 6)) in
    let (q1, q2, q3) = quarters k in
    let f = first_id_lem k (omega arith) in
    let e : bit_or id 63 + 1 ≡ id / 64 * 64 + 64 = omega (arith, bit_or-63 id) in
    let b : getmaxbit (bit_or id 63 + 1) ≡ k + 6 =
      getmaxbit_log (k + 6) (bit_or id 63 + 1) (omega arith) (omega arith) (omega arith) in
    (λ i. (b i, id - first_id (2 ^ b i))) ∙ (λ i. (k + 6, offset i))
  where
    offset : n + first_id (2 ^ (k + 6)) - first_id (2 ^ (k + 6)) ≡ n
    offset = omega arith
