-- ===== src/PrintCount/Threads.antt =====
-- `my_print` in two threads, an access to the variable at a time. `sleep` does nothing.
use git.Base.{ℕ, zero, suc, Option, none, some, List, [], ◌∷◌}
use git.Steps.{Reach}

-- The loops run ten rounds.
abbrev pub rounds : ℕ
rounds = 10

-- The thread that prints '#', and the one that prints '*'.
pub data Thread : Type 0 where
  tid1 tid2 : Thread

-- Where a thread stands in `printf("%c%d ",(char)arg,counter++)`, with the rounds that are left.
pub data Place : Type 0 where
  reading : ℕ → Place  -- the test of the loop, and the read of `counter`
  writing : ℕ → ℕ → Place  -- with what it has read
  printing : ℕ → ℕ → Place

pub record Shared : Type 0 where
  pub counter : ℕ
  pub out : List (Thread × ℕ)  -- the latest first

abbrev pub shared : ℕ → List (Thread × ℕ) → Shared
shared counter out = record { counter = counter; out = out }

-- A step of a thread; `none` is the end.
unfoldable pub move : Thread → Place → Shared → Option (Place × Shared)
move t (reading zero) sh = none
move t (reading (suc n)) sh = some (writing n sh.counter, sh)
move t (writing n v) sh = some (printing n v, record sh { counter = suc v })
move t (printing n v) sh = some (reading n, record sh { out = (t, v) ∷ sh.out })

pub record State : Type 0 where
  pub one : Place
  pub two : Place
  pub sh : Shared

-- `main`, after both calls of pthread_create.
abbrev pub init : State
init = record { one = reading rounds; two = reading rounds; sh = shared 0 [] }

unfoldable pub after1 : State → Option (Place × Shared) → Option State
after1 s none = none
after1 s (some (p, sh)) = some (record { one = p; two = s.two; sh = sh })

unfoldable pub after2 : State → Option (Place × Shared) → Option State
after2 s none = none
after2 s (some (p, sh)) = some (record { one = s.one; two = p; sh = sh })

unfoldable pub step : Thread → State → Option State
step tid1 s = after1 s (move tid1 s.one s.sh)
step tid2 s = after2 s (move tid2 s.two s.sh)

-- The states that the threads reach.
abbrev pub Reached : State → Type 0
Reached = Reach step init
