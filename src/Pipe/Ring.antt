-- ===== src/Pipe/Ring.antt =====
-- One ring buffer of a pipe against the list of the messages in it.
pub mod Append
pub mod Take
use luasys.Base.{
  ℕ, zero, suc, ◌+◌, ◌-◌, ◌*◌, ◌%◌, ◌^◌, ◌≤◌, ◌<◌, ◌≡◌, refl, ◌≢◌, ◌⊎◌, inl, inr, Bool, true, false,
  List, [], ◌∷◌, ◌++◌, length, get_or, arith, ap, ap₂, ◌∙◌, sym, subst, ltb, leb, ◌==◌, Bool-cases,
  ◌&&◌, if◌then◌else◌,
}
use luasys.Pipe.{Memory, copy_in, copy_out, short_at, Buffer, wrapped, room, wrap, append}
use luasys.Pipe.{front, take_front}

-- A message begins with its size, and has no more than 514 bytes.
pub record IsMessage (m : List ℕ) : Type 0 where
  pub has_header : 2 ≤ length m
  pub header : get_or m 0 0 + 256 * get_or m 1 0 ≡ length m
  pub fits : length m ≤ 514

-- The bytes of a message stand at an address.
abbrev pub At : Memory → ℕ → List ℕ → Type 0
At mem p m = (i : ℕ) → i < length m → mem (p + i) ≡ get_or m i 0

-- From `b` to `e` the memory holds the messages, one behind the other.
abbrev pub Laid : Memory → ℕ → ℕ → List (List ℕ) → Type 0
Laid mem b e [] = b ≡ e
Laid mem b e (m ∷ ms) = IsMessage m × At mem b m × Laid mem (b + length m) e ms

abbrev Same : Memory → Memory → ℕ → ℕ → Type 0
Same mem mem' lo hi = (a : ℕ) → lo ≤ a → a < hi → mem' a ≡ mem a

pub Laid-le : (ms : List (List ℕ)) (mem : Memory) (b e : ℕ) → Laid mem b e ms → b ≤ e
Laid-le [] mem b e h = omega arith
Laid-le (m ∷ ms) mem b e h = omega (arith, Laid-le ms mem (b + length m) e h.2)

Laid-Same :
    (ms : List (List ℕ)) (mem mem' : Memory) (b e : ℕ)
    → Same mem mem' b e
    → Laid mem b e ms
    → Laid mem' b e ms
Laid-Same [] mem mem' b e same h = h
Laid-Same (m ∷ ms) mem mem' b e same h =
    let le = Laid-le ms mem (b + length m) e h.2 in
    (
      h.0,
      λ i lt. same (b + i) (omega arith) (omega arith) ∙ h.1 i lt,
      Laid-Same ms mem mem' (b + length m) e (λ a p q. same a (omega arith) q) h.2,
    )

Laid-snoc :
    (ms : List (List ℕ)) (m : List ℕ) (mem : Memory) (b e : ℕ)
    → Laid mem b e ms
    → IsMessage m
    → At mem e m
    → Laid mem b (e + length m) (ms ++ m ∷ [])
Laid-snoc [] m mem b e h im at = (im, subst (λ p. At mem p m) (sym h) at, ap (λ p. p + length m) h)
Laid-snoc (x ∷ ms) m mem b e h im at = (h.0, h.1, Laid-snoc ms m mem (b + length x) e h.2 im at)

pub copy_in-At : (mem : Memory) (p : ℕ) (m : List ℕ) → At (copy_in mem p m) p m
unfolding copy_in
copy_in-At mem p m i lt =
    ground (arith, (let e : p + i - p ≡ i = omega arith in ap (λ j. get_or m j 0) e))

pub copy_in-outside :
    (mem : Memory) (p : ℕ) (m : List ℕ) (a : ℕ)
    → (a < p) ⊎ (p + length m ≤ a)
    → copy_in mem p m a ≡ mem a
unfolding copy_in
copy_in-outside mem p m a h = ground arith

pub copy_out-At : (m : List ℕ) (mem : Memory) (p : ℕ) → At mem p m → copy_out mem p (length m) ≡ m
unfolding copy_out
copy_out-At [] mem p h = refl
copy_out-At (b ∷ bs) mem p h =
    ap₂ ◌∷◌ (ap mem (let e : p ≡ p + 0 = omega arith in e) ∙ h 0 (omega arith)) (
      copy_out-At bs mem (p + 1) (λ i lt.
        (let e : p + 1 + i ≡ p + suc i = omega arith in ap mem e) ∙ h (suc i) (omega arith)))

header_lem :
    (m : List ℕ) (mem : Memory) (p : ℕ) → IsMessage m → At mem p m → short_at mem p ≡ length m
unfolding short_at
header_lem m mem p im at =
    ap₂ (λ x y. x + 256 * y)
      ((let e : p ≡ p + 0 = omega arith in ap mem e) ∙ at 0 (omega (arith, im.has_header)))
      (at 1 (omega (arith, im.has_header)))
    ∙ im.header

-- The messages stand from `begin` to `end`. An empty buffer has both at 0.
pub record Straight (b : Buffer) (ms : List (List ℕ)) : Type 0 where
  pub laid : Laid b.mem b.begin b.end ms
  pub inside : b.end ≤ b.len
  pub reset : b.begin ≡ b.end → b.begin ≡ 0
  pub small : b.len < 2 ^ 31

-- The older messages stand from `begin` to a mark at `turn`, the others from 0 to `end`.
pub record Turned (b : Buffer) (xs ys : List (List ℕ)) (turn : ℕ) : Type 0 where
  pub older : Laid b.mem b.begin turn xs
  pub newer : Laid b.mem 0 b.end ys
  pub behind : b.end < b.begin
  pub some_newer : 0 < b.end
  pub inside : turn ≤ b.len
  pub not_last : b.begin < b.len
  pub mark_low : b.mem turn ≡ 0
  pub mark_high : b.mem (turn + 1) ≡ 0
  pub small : b.len < 2 ^ 31

-- What a buffer holds, the oldest message first.
pub data Holds (b : Buffer) (ms : List (List ℕ)) : Type 0 where
  straight : Straight b ms → Holds b ms
  turned : (xs ys : List (List ℕ)) (turn : ℕ) → ms ≡ xs ++ ys → Turned b xs ys turn → Holds b ms
