-- ===== src/SemCount/Threads.antt =====
-- The two threads, an access to a shared variable at a time. `sleep` does nothing; `rand k` is what
-- `rand` gives in round `k`.
use git.Base.{ℕ, zero, suc, Option, none, some, List, [], ◌∷◌, ◌==◌, if◌then◌else◌, ltb}
use git.Steps.{Reach}
use git.Base.Integers.{ℤ, pos, negsuc, increment, decrement}

-- `int buf[10]`, and the rounds of the producer.
abbrev pub size : ℕ
size = 10

abbrev pub rounds : ℕ
rounds = 10

-- What the producer writes last.
abbrev pub last_mark : ℕ
last_mark = 0xab

pub data Thread : Type 0 where
  pid1 pid2 : Thread

pub data Line : Type 0 where
  product : ℕ → Line
  consum : ℕ → Line

-- Where the producer stands.
pub data Making : Type 0 where
  testing : Making  -- the test of the loop
  raising : Making  -- the read of `idx` in `idx++`
  raised : ℤ → Making  -- the write, of one more than was read
  filling : Making  -- the read of `idx` in `buf[idx]=...`
  storing : ℤ → Making
  reading : Making  -- the read of `idx` in `printf`
  printing : ℤ → Making
  posting : Making  -- `sem_post`, and `i++`
  made : Making
  outside : Making  -- outside `buf`

-- Where the consumer stands.
pub data Taking : Type 0 where
  waiting : Taking  -- `sem_wait`
  naming : Taking  -- the read of `idx` in `printf`
  showing : ℤ → Taking
  checking : Taking  -- the read of `idx` in the test
  comparing : ℤ → Taking
  lowering : Taking  -- the read of `idx` in `idx--`
  lowered : ℤ → Taking
  taken : Taking
  overran : Taking  -- outside `buf`

pub record Shared : Type 0 where
  pub mysem : ℕ
  pub buf : ℕ → ℕ
  pub idx : ℤ
  pub i : ℕ
  pub out : List Line  -- the latest first

-- The place of `buf[v]`, if it is one of the ten.
unfoldable pub place : ℤ → Option ℕ
place (pos k) = if ltb k size then some k else none
place (negsuc k) = none

-- `buf[k]=x`
unfoldable pub store : ℕ → ℕ → (ℕ → ℕ) → ℕ → ℕ
store k x buf j = if j == k then x else buf j

module _ (rand : ℕ → ℕ) where
  -- What is written in round `k`.
  unfoldable pub value : ℕ → ℕ
  value k = if k == 9 then last_mark else rand k

  -- The write to a place of `buf`, and the `printf` of one.
  unfoldable pub write_at : Option ℕ → Shared → Option (Making × Shared)
  write_at none sh = some (outside, sh)
  write_at (some k) sh = some (reading, record sh { buf = store k (value sh.i) sh.buf })

unfoldable pub print_at : Option ℕ → Shared → Option (Making × Shared)
print_at none sh = some (outside, sh)
print_at (some k) sh = some (posting, record sh { out = product (sh.buf k) ∷ sh.out })

-- A step of `produucer`; `none` is the end.
unfoldable pub produucer : (ℕ → ℕ) → Making → Shared → Option (Making × Shared)
produucer rand testing sh = some ((if ltb sh.i rounds then raising else made), sh)
produucer rand raising sh = some (raised sh.idx, sh)
produucer rand (raised v) sh = some (filling, record sh { idx = increment v })
produucer rand filling sh = some (storing sh.idx, sh)
produucer rand (storing v) sh = write_at rand (place v) sh
produucer rand reading sh = some (printing sh.idx, sh)
produucer rand (printing v) sh = print_at (place v) sh
produucer rand posting sh = some (testing, record sh { mysem = suc sh.mysem; i = suc sh.i })
produucer rand made sh = none
produucer rand outside sh = none

unfoldable pub sem_wait : ℕ → Shared → Option (Taking × Shared)
sem_wait zero sh = none
sem_wait (suc n) sh = some (naming, record sh { mysem = n })

-- The `printf` and the test of a place of `buf`.
unfoldable pub show_at : Option ℕ → Shared → Option (Taking × Shared)
show_at none sh = some (overran, sh)
show_at (some k) sh = some (checking, record sh { out = consum (sh.buf k) ∷ sh.out })

unfoldable pub test_at : Option ℕ → Shared → Option (Taking × Shared)
test_at none sh = some (overran, sh)
test_at (some k) sh = some ((if sh.buf k == last_mark then taken else lowering), sh)

-- A step of `consumer`; `none` is a thread that waits or has ended.
unfoldable pub consumer : Taking → Shared → Option (Taking × Shared)
consumer waiting sh = sem_wait sh.mysem sh
consumer naming sh = some (showing sh.idx, sh)
consumer (showing v) sh = show_at (place v) sh
consumer checking sh = some (comparing sh.idx, sh)
consumer (comparing v) sh = test_at (place v) sh
consumer lowering sh = some (lowered sh.idx, sh)
consumer (lowered v) sh = some (waiting, record sh { idx = decrement v })
consumer taken sh = none
consumer overran sh = none

pub record State : Type 0 where
  pub making : Making
  pub taking : Taking
  pub shared : Shared

-- `main`, after both calls of pthread_create.
abbrev pub init : State
init = record {
  making = testing;
  taking = waiting;
  shared = record { mysem = 0; buf = λ k. 0; idx = pos 0; i = 0; out = [] };
}

-- The state after what a thread does in it.
unfoldable pub after1 : State → Option (Making × Shared) → Option State
after1 s none = none
after1 s (some (p, sh)) = some (record { making = p; taking = s.taking; shared = sh })

unfoldable pub after2 : State → Option (Taking × Shared) → Option State
after2 s none = none
after2 s (some (c, sh)) = some (record { making = s.making; taking = c; shared = sh })

module _ (rand : ℕ → ℕ) where
  unfoldable pub step : Thread → State → Option State
  step pid1 s = after1 s (produucer rand s.making s.shared)
  step pid2 s = after2 s (consumer s.taking s.shared)

  -- The states that the threads reach.
  abbrev pub Reached : State → Type 0
  Reached = Reach step init
