-- ===== src/TaskList/Times.antt =====
-- How many times the id of a task is in a list of them.
use luasys.Base.{
  ℕ, ◌+◌, ◌≤◌, ◌≡◌, refl, Bool, List, [], ◌∷◌, ◌++◌, length, ◌==◌, if◌then◌else◌, arith,
}
use luasys.TaskList.Ring.{NotIn}
use luasys.TaskList.Links.{Apart}

abbrev pub one_if : Bool → ℕ
one_if b = if b then 1 else 0

abbrev pub times : ℕ → List ℕ → ℕ
times x [] = 0
times x (y ∷ ys) = one_if (x == y) + times x ys

-- The list without the first such id.
abbrev pub erase : ℕ → List ℕ → List ℕ
erase x [] = []
erase x (y ∷ ys) = let rest = erase x ys in if x == y then ys else y ∷ rest

pub times-append : (xs ys : List ℕ) (x : ℕ) → times x (xs ++ ys) ≡ times x xs + times x ys
times-append [] ys x = omega arith
times-append (y ∷ xs) ys x = omega (arith, times-append xs ys x)

pub times-erase :
    (xs : List ℕ) (x j : ℕ) → 1 ≤ times x xs → times j (erase x xs) + one_if (j == x) ≡ times j xs
times-erase [] x j h = omega arith
times-erase (y ∷ ys) x j h = ground (arith, times-erase ys x j)

pub length-erase : (xs : List ℕ) (x : ℕ) → 1 ≤ times x xs → length (erase x xs) + 1 ≡ length xs
length-erase [] x h = omega arith
length-erase (y ∷ ys) x h = ground (arith, length-erase ys x)

pub times-length : (xs : List ℕ) (x : ℕ) → times x xs ≤ length xs
times-length [] x = omega arith
times-length (y ∷ ys) x = ground (arith, times-length ys x)

pub NotIn-times : (xs : List ℕ) (x : ℕ) → times x xs ≡ 0 → NotIn x xs
NotIn-times [] x h = tt
NotIn-times (y ∷ ys) x h = (λ e. ground arith, NotIn-times ys x (ground arith))

pub times-NotIn : (xs : List ℕ) (x : ℕ) → NotIn x xs → times x xs ≡ 0
times-NotIn [] x h = refl
times-NotIn (y ∷ ys) x (ne, h) = ground (arith, times-NotIn ys x h)

-- Lists in which no id is twice, counted together, have none in common.
pub Apart-times : (xs ys : List ℕ) → ((x : ℕ) → times x xs + times x ys ≤ 1) → Apart xs ys
Apart-times xs [] h = tt
Apart-times xs (y ∷ ys) h =
    (NotIn-times xs y (ground (arith, h y)), Apart-times xs ys (λ x. ground (arith, h x)))

pub Apart-one : (ys : List ℕ) (x : ℕ) → times x ys ≡ 0 → Apart (x ∷ []) ys
Apart-one [] x h = tt
Apart-one (y ∷ ys) x h = ((λ e. ground arith, tt), Apart-one ys x (ground arith))
