-- ===== src/RangeSum/Program.antt =====
-- `add_range` and `main`. The arguments are not negative; an `int` beyond its largest value is undefined
-- in C, and ends a run as an overflow.
use git.Base.{ℕ, zero, suc, ◌+◌, ◌-◌, if◌then◌else◌, leb, ◌∷◌, [], ◌++◌}
use git.Base.Bytes.{codes, decimal}
use git.Io.{print, ended, crashed, Trace, trace}

abbrev pub int_max : ℕ
int_max = 2147483647

pub data Outcome : Type 0 where
  returns : ℕ → Outcome
  overflows : Outcome
  unfinished : Outcome  -- the fuel is used up

-- `for(i=low;i<=high;i++)`, with fuel for its tests.
unfoldable pub add_loop : ℕ → ℕ → ℕ → ℕ → Outcome
add_loop zero i high sum = unfinished
add_loop (suc k) i high sum =
    let more = add_loop k (suc i) high (sum + i) in
    if leb i high
    then (if leb (sum + i) int_max
        then (if leb (suc i) int_max then more else overflows)
        else overflows)
    else returns sum

-- One test for each number and one more.
unfoldable pub add_range : ℕ → ℕ → Outcome
add_range low high = add_loop (suc (suc high - low)) low high 0

-- What `main` prints.
unfoldable report : Outcome → Outcome → Trace
report (returns a) (returns b) =
    trace
      (print (
          codes "result[0]="
          ++ decimal a
          ++ (10 ∷ [])
          ++ codes "result[1]="
          ++ decimal b
          ++ (10 ∷ []))
        ∷ [])
      (ended 0)
report a b = trace [] crashed

unfoldable pub main : Trace
unfolding report
main = report (add_range 1 10) (add_range 1 100)
