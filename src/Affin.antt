-- ===== src/Affin.antt =====
-- thread/thread_affin.c: the processor that a thread is bound to. A mask of processors is a
-- function of their indexes, and what the operating system answers is given by the caller: none
-- for a call that fails. An int is a number modulo 2 ^ 32.
pub mod Offset
mod Tests
use luasys.Base.{
  ℕ, zero, suc, ◌+◌, ◌-◌, ◌%◌, ◌^◌, Bool, true, false, ◌&&◌, Option, none, some, ◌==◌,
  if◌then◌else◌,
}

-- `affin_mask_t`, by CPU_ISSET
abbrev pub Mask : Type 0
Mask = ℕ → Bool

-- The loop of `affin_cpu_count` from `i` on, with `n` found
unfoldable pub count_from : ℕ → (i n : ℕ) → Mask → ℕ
count_from zero i n m = n
count_from (suc f) i n m = count_from f (i + 1) (if m i then n + 1 else n) m

-- `affin_cpu_count`
unfoldable pub cpu_count : (nmax : ℕ) → Mask → ℕ
unfolding count_from
cpu_count nmax m = count_from nmax 0 0 m

-- The loop of `affin_cpu_offset` from `i` on; none is the result -1.
unfoldable pub offset_from : ℕ → (i cpu : ℕ) → Mask → Option ℕ
offset_from zero i cpu m = none
offset_from (suc f) i cpu m =
    let less : ℕ = (cpu + (2 ^ 32 - 1)) % 2 ^ 32 in
    let rest = offset_from f (i + 1) (if m i then less else cpu) m in
    if m i && (less == 0) then some i else rest

-- `affin_cpu_offset`
unfoldable pub cpu_offset : (nmax cpu : ℕ) → Mask → Option ℕ
unfolding offset_from
cpu_offset nmax cpu m = offset_from nmax 0 cpu m

abbrev pub only : ℕ → Mask
only i = λ j. j == i

-- `affin_cpu_set` up to the last call, with what `affin_cpu_fill` has filled in: the mask that the
-- thread is bound to
unfoldable pub cpu_set : (nmax cpu : ℕ) → Option Mask → Option Mask
unfolding cpu_offset
cpu_set nmax cpu none = none
cpu_set nmax cpu (some m) =
    if cpu == 0
    then some m
    else elim (cpu_offset nmax cpu m) [ none ↦ none | some i ↦ some (only i) ]

-- `affin_nprocs`; none is no result.
unfoldable pub nprocs : (nmax : ℕ) → Option Mask → Option ℕ
unfolding cpu_count
nprocs nmax none = none
nprocs nmax (some m) = if cpu_count nmax m == 0 then none else some (cpu_count nmax m)
