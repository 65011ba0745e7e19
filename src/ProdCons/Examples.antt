-- ===== src/ProdCons/Examples.antt =====
-- A whole run, and one in which the consumer waits.
use git.Base.{◌≡◌, ◌⊎◌, refl, List, ◌∷◌, ◌++◌, replicate, ◌≤◌}
use git.ProdCons.Threads.{
  Consumer, Owner, init, Actor, producer, consumer, move_producer, move_consumer, lock_producer,
  lock_consumer, wake, test_head, take_head, step,
}
use git.Steps.{Run, begin, at_start, extend, run_from}
use git.ProdCons.Shape.{Inv}
use git.ProdCons.Invariant.{Reach-Inv}
use git.ProdCons.Progress.{IsFinished, finished, CanMove, deadlock_free}
use git.ProdCons.Termination.{left, go, stop, IsComplete, Steps-IsComplete}

abbrev ends : List Actor → Run step init
unfolding run_from extend step move_producer move_consumer lock_producer lock_consumer wake
    test_head take_head
ends schedule = run_from step init schedule (at_start step init)

abbrev whole : List Actor
whole = replicate 25 (producer 41) ++ replicate 30 consumer

-- The consumer goes first and waits; the producer links a number and signals.
abbrev woken_up : List Actor
woken_up = consumer ∷ consumer ∷ consumer ∷ replicate 5 (producer 41)

-- Both threads to the end, one after the other.
whole_finishes : IsFinished (ends whole).last
unfolding run_from extend step move_producer move_consumer lock_producer lock_consumer wake
    test_head take_head
whole_finishes = finished

Reach-Inv_example : Inv (ends woken_up).last
Reach-Inv_example = Reach-Inv (ends woken_up).reach

deadlock_free_example : IsFinished (ends woken_up).last ⊎ CanMove (ends woken_up).last
deadlock_free_example = deadlock_free (ends woken_up).reach

-- The consumer comes to `pthread_mutex_lock`, and then takes the lock.
Steps-IsComplete_example :
    (2 ≤ left init)
    × (left init ≡ 140)
    × (IsComplete (record init { cons = Consumer.testing 4; lock = Owner.by_consumer })
        ⊎ CanMove (record init { cons = Consumer.testing 4; lock = Owner.by_consumer }))
unfolding step move_consumer lock_consumer
Steps-IsComplete_example =
    Steps-IsComplete begin (go consumer (λ e. cc) refl (go consumer (λ e. cc) refl stop))

woken_up_waits : (ends woken_up).last.cons ≡ Consumer.woken 4
unfolding run_from extend step move_producer move_consumer lock_producer lock_consumer wake
    test_head
woken_up_waits = refl
