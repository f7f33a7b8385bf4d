-- ===== src/Affin/Offset.antt =====
-- Which processor `affin_cpu_set` binds a thread to.
use luasys.Base.{
  ℕ, zero, suc, ◌+◌, ◌-◌, ◌%◌, ◌^◌, ◌≤◌, ◌<◌, ◌≡◌, ◌⊎◌, sym, ◌∙◌, ap, subst, Bool, true, false,
  Bool-cases, Option-cases, on_branches, inl, inr, ◌&&◌, Option, none, some, ◌==◌, if◌then◌else◌,
  arith,
}
use luasys.Affin.{Mask, count_from, cpu_count, offset_from, cpu_offset, cpu_set, only}

abbrev members_if : Bool → ℕ
members_if b = if b then 1 else 0

-- The number of processors of the mask from `i` on, among `f` of them
abbrev members : ℕ → ℕ → Mask → ℕ
members zero i m = 0
members (suc f) i m = (if m i then 1 else 0) + members f (i + 1) m

count_from-members : (f i n : ℕ) (m : Mask) → count_from f i n m ≡ n + members f i m
unfolding count_from
count_from-members zero i n m = omega arith
count_from-members (suc f) i n m =
    ground (arith, count_from-members f (i + 1) (if m i then n + 1 else n) m)

-- The processor with this index is in the mask, and it is the `cpu`th from `start` on.
abbrev IsNth : (f start cpu : ℕ) → Mask → Option ℕ → Type 0
IsNth f start cpu m none = members f start m < cpu
IsNth f start cpu m (some i) =
    (k : ℕ) × (i ≡ start + k) × (k < f) × (m i ≡ true) × (members k start m + 1 ≡ cpu)

-- The processors up to a member of the mask are as many as are before it, and this one.
members-from :
    (f k start : ℕ) (m : Mask)
    → k < f
    → m (start + k) ≡ true
    → members k start m + 1 ≤ members f start m
members-from zero k start m l h = absurd (omega arith)
members-from (suc f) zero start m l h =
    let here : m start ≡ true = (let z : start ≡ start + 0 = omega arith in ap m z) ∙ h in
    ground arith
members-from (suc f) (suc k) start m l h =
    let next : m (start + 1 + k) ≡ true =
      (let z : start + 1 + k ≡ start + suc k = omega arith in ap m z) ∙ h in
    omega (arith, members-from f k (start + 1) m (omega arith) next)

members-more :
    (nmax i : ℕ) (m : Mask) → i < nmax → m i ≡ true → members i 0 m + 1 ≤ members nmax 0 m
members-more nmax i m l h =
    members-from nmax i 0 m l ((let z : 0 + i ≡ i = omega arith in ap m z) ∙ h)

step-IsNth :
    (f i c cpu : ℕ) (m : Mask) (o : Option ℕ) (b : Bool)
    → m i ≡ b
    → c + (if b then 1 else 0) ≡ cpu
    → IsNth f (i + 1) c m o
    → IsNth (suc f) i cpu m o
step-IsNth f i c cpu m none b h e l = let one = ap (λ x. members_if x) h in omega (arith, e, one, l)
step-IsNth f i c cpu m (some j) b h e (k, p, l, t, q) =
    let one = ap (λ x. members_if x) h in
    (suc k, omega (arith, p), omega (arith, l), t, omega (arith, e, one, q))

offset_from-IsNth :
    (f i cpu : ℕ) (m : Mask) → 0 < cpu → cpu < 2 ^ 32 → IsNth f i cpu m (offset_from f i cpu m)
unfolding offset_from
offset_from-IsNth zero i cpu m pos lt = pos
offset_from-IsNth (suc f) i cpu m pos lt = elim (Bool-cases (m i)) [
  | inr h ↦
      let rest = offset_from-IsNth f (i + 1) cpu m pos lt in
      subst
        (λ b. IsNth (suc f) i cpu m (
          if b && ((cpu + (2 ^ 32 - 1)) % 2 ^ 32 == 0)
          then some i
          else offset_from f (i + 1) (if b then (cpu + (2 ^ 32 - 1)) % 2 ^ 32 else cpu) m))
        (sym h) (step-IsNth f i cpu cpu m (offset_from f (i + 1) cpu m) false h (omega arith) rest)
  | inl h ↦
      let less : ℕ = (cpu + (2 ^ 32 - 1)) % 2 ^ 32 in
      let small : less ≡ cpu - 1 = omega arith in
      subst
        (λ b.
          IsNth (suc f) i cpu m (
            if b && (less == 0) then some i else offset_from f (i + 1) (if b then less else cpu) m))
        (sym h)
        (on_branches (IsNth (suc f) i cpu m) (less == 0) (some i) (offset_from f (i + 1) less m)
          (λ z. (0, omega arith, omega arith, h, ground arith))
          (λ nz.
            let pos1 : 0 < less = ground arith in
            let rest = offset_from-IsNth f (i + 1) less m pos1 (omega (arith, small)) in
            step-IsNth f i less cpu m (offset_from f (i + 1) less m) true h (omega (arith, small))
              rest))
]

-- Binding a thread to the `cpu`th processor, the first being 1: when the mask of the process has that
-- many, the thread is bound to just the one that has `cpu - 1` of the mask before it, and otherwise
-- it is left as it is.
pub cpu_set_lem :
    (nmax cpu : ℕ) (m : Mask)
    → 0 < cpu
    → cpu < 2 ^ 31
    → ((cpu ≤ cpu_count nmax m)
        × ((i : ℕ) × (cpu_set nmax cpu (some m) ≡ some (only i))
            × (i < nmax)
            × (m i ≡ true)
            × (cpu_count i m + 1 ≡ cpu)))
      ⊎ ((cpu_count nmax m < cpu) × (cpu_set nmax cpu (some m) ≡ none))
unfolding cpu_set cpu_offset cpu_count
cpu_set_lem nmax cpu m pos lt =
    let nth = offset_from-IsNth nmax 0 cpu m pos (omega arith) in
    let all = count_from-members nmax 0 0 m in
    let some_cpu : (cpu == 0) ≡ false = ground arith in
    let whole =
      ap
        (λ b.
          if b
          then some m
          else elim (offset_from nmax 0 cpu m) [ none ↦ none | some i ↦ some (only i) ])
        some_cpu in
    elim (Option-cases (offset_from nmax 0 cpu m)) [
      | inl e ↦
          let few = subst (IsNth nmax 0 cpu m) e nth in
          inr (
            omega (arith, few, all),
            whole ∙ ap (λ (o : Option ℕ). elim o [ none ↦ none | some i ↦ some (only i) ]) e,
          )
      | inr (i, e) ↦
          let (k, a, b, c, d) = subst (IsNth nmax 0 cpu m) e nth in
          let before = count_from-members i 0 0 m in
          let same : i ≡ k = omega (arith, a) in
          let d1 : members i 0 m + 1 ≡ cpu = ap (λ x. members x 0 m + 1) same ∙ d in
          let rest = members-more nmax i m (omega (arith, b, same)) c in
          inl (
            omega (arith, all, d1, rest),
            (
              i,
              whole ∙ ap (λ (o : Option ℕ). elim o [ none ↦ none | some i ↦ some (only i) ]) e,
              omega (arith, b, same),
              c,
              omega (arith, before, d1),
            ),
          )
    ]
