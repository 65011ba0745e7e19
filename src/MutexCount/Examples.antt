-- ===== src/MutexCount/Examples.antt =====
-- A run in which pthread2 comes in first, and one that is not over.
use git.Base.{◌≡◌, ◌⊎◌, refl, true, List, [], ◌∷◌, ◌++◌, replicate}
use git.Base.Integers.{pos, increment, decrement}
use git.MutexCount.Threads.{Thread, th1, th2, change, lock, move, init, step}
use git.Steps.{Run, at_start, extend, run_from, moved}
use git.MutexCount.Outcome.{Ended, Reach-outcome}

abbrev ends : List Thread → Run step init
unfolding run_from extend step move lock change increment decrement
ends schedule = run_from step init schedule (at_start step init)

abbrev early : List Thread
early = th1 ∷ th2 ∷ th2 ∷ th1 ∷ th2 ∷ []

Reach-outcome_example :
    Ended (ends early).last
    ⊎ ((moved (step th1 (ends early).last) ≡ true) ⊎ (moved (step th2 (ends early).last) ≡ true))
Reach-outcome_example = Reach-outcome (ends early).reach

ends_at_zero : (ends (replicate 33 th2 ++ replicate 33 th1)).last.shared.g_var ≡ pos 0
unfolding run_from extend step move lock change increment decrement
ends_at_zero = refl
