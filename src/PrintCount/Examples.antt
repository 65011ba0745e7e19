-- ===== src/PrintCount/Examples.antt =====
-- Runs that end with the largest and with the smallest count.
use git.Base.{◌≤◌, ◌≡◌, refl, List, [], ◌∷◌, ◌++◌, replicate}
use git.PrintCount.Threads.{rounds, Thread, tid1, tid2, move, init, after1, after2, step}
use git.Steps.{Run, at_start, extend, run_from}
use git.PrintCount.Invariant.{lines}
use git.PrintCount.Bounds.{Reached-total}

abbrev ends : List Thread → Run step init
unfolding run_from extend step move after1 after2
ends schedule = run_from step init schedule (at_start step init)

-- The first thread reads 0; the other runs nine rounds and the first then writes 1; the other reads 1
-- for its last round; the first runs to its end, and the other writes 2.
abbrev lost : List Thread
lost =
    (tid1 ∷ [])
    ++ replicate 27 tid2
    ++ (tid1 ∷ tid2 ∷ [])
    ++ replicate 28 tid1
    ++ (tid2 ∷ tid2 ∷ [])

Reached-total_example :
    (2 ≤ (ends lost).last.sh.counter)
    × ((ends lost).last.sh.counter ≤ 20)
    × (lines tid1 (ends lost).last.sh.out ≡ rounds)
    × (lines tid2 (ends lost).last.sh.out ≡ rounds)
unfolding run_from extend step move after1 after2
Reached-total_example = Reached-total (ends lost).reach refl refl

two_at_the_end : (ends lost).last.sh.counter ≡ 2
unfolding run_from extend step move after1 after2
two_at_the_end = refl

twenty_at_the_end : (ends (replicate 30 tid2 ++ replicate 30 tid1)).last.sh.counter ≡ 20
unfolding run_from extend step move after1 after2
twenty_at_the_end = refl
