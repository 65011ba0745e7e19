-- ===== src/JoinedPrinters/Examples.antt =====
-- Some first steps.
use git.Base.{◌≡◌, refl, [], ◌∷◌}
use git.Steps.{Run, at_start, extend, run_from}
use git.JoinedPrinters.Threads.{
  whole, tid1, tid2, numbers, argument, joining1, thread_func, has_ended, main_step, after1, after2,
  step, init,
}

abbrev begun : Run step init
unfolding run_from extend step main_step after1 after2 thread_func has_ended
begun =
    run_from step init (whole ∷ tid1 ∷ tid2 ∷ whole ∷ whole ∷ tid2 ∷ tid1 ∷ []) (at_start step init)

both_print :
    (begun.last.main ≡ joining1)
    × (begun.last.out1 ≡ argument ∷ numbers ∷ [])
    × (begun.last.out2 ≡ numbers ∷ [])
unfolding run_from extend step main_step after1 after2 thread_func has_ended
both_print = (refl, refl, refl)
