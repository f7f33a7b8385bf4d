-- ===== src/Evq/Digits.antt =====
-- The native `bit_or` by the lowest digit: it takes halves and the lowest digits apart.
use Prim.Native.Nat.{max, digits, bit_or, bit_or-bitwise}
use luasys.Base.{ℕ, zero, suc, ◌+◌, ◌*◌, ◌/◌, ◌%◌, ◌≤◌, ◌≡◌, refl, ap, arith}

-- More digits to go than the first number has change nothing.
enough_digits :
    (n m a b : ℕ) → a ≤ n → a ≤ m → digits (λ y. y) max n a b ≡ digits (λ y. y) max m a b
enough_digits zero zero a b h k = refl
enough_digits (suc n) (suc m) zero b h k = refl
enough_digits (suc n) zero zero b h k = refl
enough_digits zero (suc m) zero b h k = refl
enough_digits zero (suc m) (suc a) b h k = absurd (omega arith)
enough_digits (suc n) zero (suc a) b h k = absurd (omega arith)
enough_digits (suc n) (suc m) (suc a) b h k =
    ap (λ (q : ℕ). q * 2 + max (suc a % 2) (b % 2))
      (enough_digits n m (suc a / 2) (b / 2) (omega arith) (omega arith))

bit_or-split : (a b : ℕ) → bit_or a b ≡ bit_or (a / 2) (b / 2) * 2 + max (a % 2) (b % 2)
bit_or-split zero b = simp bit_or-bitwise (omega arith)
bit_or-split (suc a) b = simp bit_or-bitwise (
    ap (λ (q : ℕ). q * 2 + max (suc a % 2) (b % 2))
      (enough_digits a (suc a / 2) (suc a / 2) (b / 2) (omega arith) (omega arith)))

pub bit_or-half : (a b : ℕ) → bit_or a b / 2 ≡ bit_or (a / 2) (b / 2)
bit_or-half a b = omega (arith, bit_or-split a b)

pub bit_or-parity : (a b : ℕ) → bit_or a b % 2 ≡ max (a % 2) (b % 2)
bit_or-parity a b = omega (arith, bit_or-split a b)

digits-zero : (n a : ℕ) → a ≤ n → digits (λ y. y) max n a 0 ≡ a
digits-zero zero zero h = refl
digits-zero zero (suc a) h = absurd (omega arith)
digits-zero (suc n) zero h = refl
digits-zero (suc n) (suc a) h = omega (arith, digits-zero n (suc a / 2) (omega arith))

bit_or-zero : (a : ℕ) → bit_or a 0 ≡ a
bit_or-zero a = simp bit_or-bitwise (digits-zero a a (omega arith))

-- All of the six lowest digits set
pub bit_or-63 : (a : ℕ) → bit_or a 63 ≡ a / 64 * 64 + 63
bit_or-63 a = omega (
  arith,
  bit_or-split a 63,
  bit_or-split (a / 2) 31,
  bit_or-split (a / 2 / 2) 15,
  bit_or-split (a / 2 / 2 / 2) 7,
  bit_or-split (a / 2 / 2 / 2 / 2) 3,
  bit_or-split (a / 2 / 2 / 2 / 2 / 2) 1,
  bit_or-zero (a / 2 / 2 / 2 / 2 / 2 / 2),
)
