-- ===== src/MemBuf/Output/Grow.antt =====
-- The growth loop of `membuf_addlstring`.
use luasys.Base.{
  ℕ, zero, suc, ◌*◌, ◌%◌, ◌^◌, ◌≤◌, ◌<◌, ◌≡◌, refl, none, some, arith, leb, inl, inr, Bool-cases,
  leb→le,
}
use native.Mathlib.Nat.{pow-suc, pow-zero}
use luasys.MemBuf.Output.{grow, grow_fuel}

double_pow : (len f : ℕ) → 2 * len * 2 ^ f ≡ len * 2 ^ suc f
double_pow len f = rw pow-suc (omega arith)

-- With enough fuel the loop ends, at a length above the one asked for and at most twice that.
pub grow_enough :
    (f len n : ℕ)
    → 0 < len
    → len ≤ n
    → n < 2 ^ 63
    → n < len * 2 ^ f
    → (l : ℕ) × (grow f len n ≡ some l) × (n < l) × (l ≤ 2 * n)
unfolding grow
grow_enough zero len n pos le small fuel = absurd (omega (arith, pow-zero 2))
grow_enough (suc f) len n pos le small fuel =
    let w : 2 * len % 2 ^ 64 ≡ 2 * len = omega arith in
    rw w (elim (Bool-cases (leb (2 * len) n)) [
      | inl more ↦
          rw more
            (grow_enough f (2 * len) n (omega arith) (leb→le _ _ more) small (rw double_pow fuel))
      | inr over ↦ rw over (2 * len, refl, ground arith, omega arith)
    ])

-- 64 rounds are enough from any length above 0 that is not above `n`, for `n` below 2 ^ 63: the
-- loop ends at a length above `n` and at most twice it.
pub grow_total :
    (len n : ℕ)
    → 0 < len
    → len ≤ n
    → n < 2 ^ 63
    → (l : ℕ) × (grow grow_fuel len n ≡ some l) × (n < l) × (l ≤ 2 * n)
grow_total len n pos le small = grow_enough grow_fuel len n pos le small (omega arith)

-- From the length 0 the loop never ends, however many rounds it is given.
pub grow_zero : (f n : ℕ) → grow f 0 n ≡ none
unfolding grow
grow_zero zero n = refl
grow_zero (suc f) n = ground (arith, grow_zero f n)
