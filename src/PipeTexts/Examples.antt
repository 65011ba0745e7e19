-- ===== src/PipeTexts/Examples.antt =====
-- The parent is killed, and the child reads both texts.
use git.Base.{◌≡◌, ◌⊎◌, refl, true, false, List, [], ◌∷◌}
use git.Steps.{Run, at_start, extend, run_from}
use git.PipeTexts.Processes.{
  Process, father, son, parent_exit, killed, has_reader, has_writer, put_text, parent_step,
  read_pipe, child_step, step, forked, over, begun, main,
}
use git.PipeTexts.Outcome.{told1, told2, CanMove, Ended, Reached-ends}

abbrev after : List Process → Run step forked
unfolding run_from extend step parent_step child_step put_text read_pipe has_reader has_writer
after schedule = run_from step forked schedule (at_start step forked)

abbrev fast_son : List Process
fast_son = father ∷ son ∷ son ∷ father ∷ []

abbrev slow_son : List Process
slow_son = son ∷ father ∷ father ∷ son ∷ father ∷ father ∷ son ∷ father ∷ []

Reached-ends_example : CanMove (after fast_son).last ⊎ Ended (after fast_son).last
Reached-ends_example = Reached-ends (after fast_son).reach

fast_kills : ((after fast_son).last.parent_at ≡ killed) × ((after fast_son).last.told ≡ told1)
unfolding run_from extend step parent_step child_step put_text read_pipe has_reader has_writer
fast_kills = (refl, refl)

slow_reads : ((after slow_son).last.parent_at ≡ parent_exit) × ((after slow_son).last.told ≡ told2)
unfolding run_from extend step parent_step child_step put_text read_pipe has_reader has_writer
slow_reads = (refl, refl)

fork_fails : (main true false ≡ over 0) × (main true true ≡ begun forked)
unfolding main
fork_fails = (refl, refl)
