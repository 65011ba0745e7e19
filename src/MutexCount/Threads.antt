-- ===== src/MutexCount/Threads.antt =====
-- The two threads, an access to a shared variable at a time. `sleep` does nothing.
use git.Base.{ℕ, zero, suc, Option, none, some, List, [], ◌∷◌}
use git.Steps.{Reach}
use git.Base.Integers.{ℤ, pos, increment, decrement}

pub data Thread : Type 0 where
  th1 th2 : Thread

-- `g_var++` of pthread1, `g_var--` of pthread2.
unfoldable pub change : Thread → ℤ → ℤ
change th1 = increment
change th2 = decrement

-- The loops run ten rounds.
abbrev pub rounds : ℕ
rounds = 10

-- Where a thread stands, with the rounds that it has left.
pub data Place : Type 0 where
  entering : Place  -- before `printf("enter ...")`
  locking : Place
  testing : ℕ → Place  -- the test of the loop, and the read of `g_var` behind it
  writing : ℕ → ℤ → Place  -- with what it has read
  printing : ℕ → Place
  finished : Place

pub data Line : Type 0 where
  entered : Thread → Line
  value : Thread → ℤ → Line

pub record Shared : Type 0 where
  pub mylock : Option Thread
  pub g_var : ℤ  -- between -10 and 10
  pub out : List Line  -- the latest first

unfoldable pub lock : Thread → Option Thread → Shared → Option (Place × Shared)
lock w none sh = some (testing rounds, record sh { mylock = some w })
lock w (some v) sh = none

-- A step of a thread; `none` is a thread that waits or has ended.
unfoldable pub move : Thread → Place → Shared → Option (Place × Shared)
move w entering sh = some (locking, record sh { out = entered w ∷ sh.out })
move w locking sh = lock w sh.mylock sh
move w (testing zero) sh = some (finished, record sh { mylock = none })
move w (testing (suc n)) sh = some (writing n sh.g_var, sh)
move w (writing n v) sh = some (printing n, record sh { g_var = change w v })
move w (printing n) sh = some (testing n, record sh { out = value w sh.g_var ∷ sh.out })
move w finished sh = none

pub record State : Type 0 where
  pub one : Place
  pub two : Place
  pub shared : Shared

-- `main`, after both calls of pthread_create.
abbrev pub init : State
init = record {
  one = entering;
  two = entering;
  shared = record { mylock = none; g_var = pos 0; out = [] };
}

unfoldable pub step : Thread → State → Option State
step th1 s = elim (move th1 s.one s.shared) [
  | none ↦ none
  | some (p, sh) ↦ some (record { one = p; two = s.two; shared = sh })
]
step th2 s = elim (move th2 s.two s.shared) [
  | none ↦ none
  | some (p, sh) ↦ some (record { one = s.one; two = p; shared = sh })
]

-- The states that the threads reach.
abbrev pub Reached : State → Type 0
Reached = Reach step init
