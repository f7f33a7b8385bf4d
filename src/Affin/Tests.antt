-- ===== src/Affin/Tests.antt =====
-- A mask of processors
use luasys.Base.{ℕ, ◌+◌, ◌≤◌, ◌<◌, ◌≡◌, ◌⊎◌, refl, true, ◌==◌, ◌||◌, none, some, arith}
use luasys.Affin.{Mask, count_from, cpu_count, offset_from, cpu_offset, cpu_set, nprocs, only}
use luasys.Affin.Offset.{cpu_set_lem}

abbrev three_of_four : Mask
three_of_four = λ i. (i == 0) || ((i == 2) || (i == 3))

cpu_set_lem_example :
    ((2 ≤ cpu_count 4 three_of_four)
      × ((i : ℕ) × (cpu_set 4 2 (some three_of_four) ≡ some (only i))
          × (i < 4)
          × (three_of_four i ≡ true)
          × (cpu_count i three_of_four + 1 ≡ 2)))
    ⊎ ((cpu_count 4 three_of_four < 2) × (cpu_set 4 2 (some three_of_four) ≡ none))
cpu_set_lem_example = cpu_set_lem 4 2 three_of_four (omega arith) (omega arith)

offsets :
    (cpu_offset 4 2 three_of_four ≡ some 2)
    × (cpu_offset 4 0 three_of_four ≡ none)
    × (nprocs 4 (some three_of_four) ≡ some 3)
unfolding cpu_offset offset_from nprocs cpu_count count_from
offsets = (refl, refl, refl)
