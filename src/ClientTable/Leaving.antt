-- ===== src/ClientTable/Leaving.antt =====
-- The search and removal of `pthread_run` in t2s.c in several threads at once, one access to `client` or
-- `cnt` at a time: nothing of it is under the lock. `main` waits in `accept`.
mod Access
mod Bounds
mod Alone
mod Examples
use git.Base.{
  ℕ, zero, suc, ◌-◌, ◌^◌, Bool, true, false, Option, none, some, List, [], ◌∷◌, ◌==◌, if◌then◌else◌,
  get_elem?, set, length, ltb,
}
use mathlib.Core.Option
use git.Base.Options.{◌>>=◌}
use git.Steps.{Reach}
use git.ClientTable.Server.{Client, Server}

-- Where a thread stands in lines 43 to 52.
pub data Place : Type 0 where
  testing : ℕ → Place  -- i<cnt
  comparing : ℕ → Place  -- client[i].cfd == cl.cfd
  counting : ℕ → Place  -- `cnt` of client[cnt-1]
  copying : ℕ → ℕ → Place  -- client[i] = client[cnt-1], with both indices
  decreasing : Place  -- `cnt` of --cnt
  storing : ℕ → Place  -- with what it has read
  searched : Bool → Place  -- before the broadcast, and whether the client was found
  faulted : Place  -- after an access out of bounds

pub record Table : Type 0 where
  pub client : List Client
  pub cnt : ℕ

abbrev pub table : List Client → ℕ → Table
table xs c = record { client = xs; cnt = c }

-- One less, of a `size_t`.
unfoldable pub less_one : ℕ → ℕ
less_one zero = 2 ^ 64 - 1
less_one (suc n) = n

unfoldable pub compared : Client → ℕ → Option Client → Place
compared cl i none = faulted
compared cl i (some x) = if x.cfd == cl.cfd then counting i else testing (suc i)

unfoldable pub copied : ℕ → Table → Option Client → Place × Table
copied i t none = (faulted, t)
copied i t (some x) = (decreasing, record t { client = set t.client i x })

-- The next access of the thread of `cl`.
unfoldable pub move : Client → Place → Table → Option (Place × Table)
move cl (testing i) t = some (if ltb i t.cnt then comparing i else searched false, t)
move cl (comparing i) t = some (compared cl i (get_elem? t.client i), t)
move cl (counting i) t = some (copying i (less_one t.cnt), t)
move cl (copying i j) t = some (copied i t (get_elem? t.client j))
move cl decreasing t = some (storing t.cnt, t)
move cl (storing v) t = some (searched true, record t { cnt = less_one v })
move cl (searched found) t = none
move cl faulted t = none

-- A thread, with its copy of the client.
pub record Thread : Type 0 where
  pub cl : Client
  pub at : Place

abbrev pub thread : Client → Place → Thread
thread cl p = record { cl = cl; at = p }

pub record State : Type 0 where
  pub threads : List Thread
  pub tab : Table

unfoldable pub put_first : Client → List Thread → Option (Place × Table) → Option State
put_first cl ths none = none
put_first cl ths (some (p, t)) = some (record { threads = thread cl p ∷ ths; tab = t })

unfoldable pub behind : Thread → Option State → Option State
behind th none = none
behind th (some s) = some (record { threads = th ∷ s.threads; tab = s.tab })

-- An access of the `k`-th of the threads.
unfoldable pub step_of : ℕ → List Thread → Table → Option State
step_of k [] t = none
step_of zero (th ∷ ths) t = put_first th.cl ths (move th.cl th.at t)
step_of (suc k) (th ∷ ths) t = behind th (step_of k ths t)

unfoldable pub step : ℕ → State → Option State
step k s = step_of k s.threads s.tab

abbrev pub of_server : Server → Table
of_server s = table s.client s.cnt

-- The threads of `leavers` have got 0 or less from `recv`.
unfoldable pub begins : List Client → List Thread
begins [] = []
begins (cl ∷ leavers) = thread cl (testing 0) ∷ begins leavers

unfoldable pub start_of : List Client → Server → State
start_of leavers s = record { threads = begins leavers; tab = of_server s }

abbrev pub Reached : List Client → Server → State → Type 0
Reached leavers s = Reach step (start_of leavers s)

-- Several accesses of one thread by itself.
unfoldable pub moves : ℕ → Client → Place → Table → Option (Place × Table)
moves zero cl p t = some (p, t)
moves (suc n) cl p t = do (p', t') ← move cl p t; moves n cl p' t'
