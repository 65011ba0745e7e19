-- ===== src/JoinedPrinters/Threads.antt =====
-- `main` and its two threads, a call at a time. The process and thread numbers in the lines are left out,
-- and `my_delay`, which only counts.
use git.Base.{ℕ, suc, Bool, true, false, Option, none, some, List, [], ◌∷◌, if◌then◌else◌, ltb}
use git.Steps.{Reach}

-- The line of a thread's numbers, and its argument.
pub data Line : Type 0 where
  numbers argument : Line

-- Where a thread stands in the loop, by `i`.
pub data Place : Type 0 where
  unborn : Place
  testing : ℕ → Place  -- i < 10, and the first printf
  naming : ℕ → Place  -- the second printf, my_delay, i++
  ended : Place

-- Where `main` stands.
pub data Main : Type 0 where
  creating1 creating2 joining1 joining2 returned : Main

pub record State : Type 0 where
  pub main : Main
  pub one : Place
  pub two : Place
  pub out1 : List Line  -- what each thread has printed, the latest first
  pub out2 : List Line

abbrev pub rounds : ℕ
rounds = 10

unfoldable pub thread_func : Place → List Line → Option (Place × List Line)
thread_func unborn out = none
thread_func (testing i) out =
    some (if ltb i rounds then (naming i, numbers ∷ out) else (ended, out))
thread_func (naming i) out = some (testing (suc i), argument ∷ out)
thread_func ended out = none

unfoldable pub has_ended : Place → Bool
has_ended unborn = false
has_ended (testing i) = false
has_ended (naming i) = false
has_ended ended = true

-- pthread_create twice, pthread_join twice.
unfoldable pub main_step : State → Main → Option State
main_step s creating1 = some (record s { main = creating2; one = testing 0 })
main_step s creating2 = some (record s { main = joining1; two = testing 0 })
main_step s joining1 = if has_ended s.one then some (record s { main = joining2 }) else none
main_step s joining2 = if has_ended s.two then some (record s { main = returned }) else none
main_step s returned = none

unfoldable pub after1 : State → Option (Place × List Line) → Option State
after1 s none = none
after1 s (some (p, out)) = some (record s { one = p; out1 = out })

unfoldable pub after2 : State → Option (Place × List Line) → Option State
after2 s none = none
after2 s (some (p, out)) = some (record s { two = p; out2 = out })

pub data Who : Type 0 where
  whole tid1 tid2 : Who

unfoldable pub step : Who → State → Option State
step whole s = main_step s s.main
step tid1 s = after1 s (thread_func s.one s.out1)
step tid2 s = after2 s (thread_func s.two s.out2)

abbrev pub init : State
init = record { main = creating1; one = unborn; two = unborn; out1 = []; out2 = [] }

abbrev pub Reached : State → Type 0
Reached = Reach step init
