-- ===== src/RangeSum/Examples.antt =====
-- The calls of `main`, and a sum that overflows.
use git.Base.{ℕ, ◌+◌, ◌-◌, ◌*◌, ◌≡◌, refl, suc, if◌then◌else◌, leb, [], ◌∷◌, ◌++◌, arith}
use git.Base.Bytes.{codes, decimal, decimal_digits}
use git.Io.{print, ended, trace}
use git.RangeSum.Program.{int_max, returns, overflows, add_range, add_loop, main}
use git.RangeSum.Gauss.{add_range-sum}

add_range-sum_example :
    (s : ℕ) × (2 * s ≡ (suc 70000 - 5) * (5 + 70000))
    × (add_range 5 70000 ≡ (if leb s int_max then returns s else overflows))
add_range-sum_example = add_range-sum 5 70000 (omega arith) (omega arith)

main_prints :
    main
    ≡ trace
        (print (codes "result[0]=55" ++ (10 ∷ []) ++ codes "result[1]=5050" ++ (10 ∷ [])) ∷ [])
        (ended 0)
unfolding main add_range add_loop decimal decimal_digits
main_prints = refl

overflowing : add_range 2147483600 2147483646 ≡ overflows
unfolding add_range add_loop
overflowing = refl
