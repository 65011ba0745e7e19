-- ===== src/SemCount/Examples.antt =====
-- A run that is not over, the run in turns, one that waits for ever and one that leaves the buffer.
use git.Base.{ℕ, ◌≡◌, ◌⊎◌, refl, true, Option, none, some, List, ◌++◌, replicate}
use git.Base.Integers.{increment, decrement}
use git.Steps.{begin, moved}
use git.SemCount.Threads.{
  Thread, pid1, pid2, Making, made, outside, Taking, waiting, overran, place, store, value,
  write_at, print_at, produucer, sem_wait, show_at, test_at, consumer, State, init, after1, after2,
  step, Reached,
}
use git.SemCount.Counts.{products, consums}
use git.SemCount.Outcome.{Over, Reach-ends}
use git.SemCount.InTurn.{run, turns, run-Reach}

-- What `rand` gives.
abbrev sevens : ℕ → ℕ
sevens k = 7

-- The producer raises `idx` between the consumer's test and its `idx--` in the ninth round.
abbrev unlucky : List Thread
unlucky = turns 8 ++ replicate 8 pid1 ++ replicate 5 pid2 ++ replicate 9 pid1 ++ replicate 9 pid2

abbrev state_of : Option State → State
state_of none = init
state_of (some s) = s

abbrev last : State
last = state_of (run sevens unlucky init)

last-Reach : Reached sevens last
unfolding run turns step produucer consumer after1 after2 write_at print_at show_at test_at sem_wait
    place store value increment decrement
last-Reach = run-Reach sevens unlucky init last begin refl

Reach-ends_example :
    Over last
    ⊎ (((last.making ≡ outside) ⊎ (last.taking ≡ overran))
        ⊎ ((moved (step sevens pid1 last) ≡ true) ⊎ (moved (step sevens pid2 last) ≡ true)))
Reach-ends_example = Reach-ends sevens last-Reach

-- Where the threads stand, the semaphore and the lines of each.
abbrev seen : Option State → Option (Making × Taking × ℕ × ℕ × ℕ)
seen none = none
seen (some s) =
    some (s.making, s.taking, s.shared.mysem, products s.shared.out, consums s.shared.out)

waits_for_ever : seen (run sevens unlucky init) ≡ some (made, waiting, 0, 10, 10)
unfolding run turns step produucer consumer after1 after2 write_at print_at show_at test_at sem_wait
    place store value increment decrement products consums
waits_for_ever = refl

-- The producer alone writes to `buf[10]`.
leaves_buffer : seen (run sevens (replicate 77 pid1) init) ≡ some (outside, waiting, 9, 9, 0)
unfolding run step produucer after1 write_at print_at place store value increment products consums
leaves_buffer = refl
