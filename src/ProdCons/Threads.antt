-- ===== src/ProdCons/Threads.antt =====
-- The two threads, a shared access at a time. The list `head` is kept as the numbers in its nodes, and
-- a node that is not linked as its number. The calls of `sleep` do nothing.
use git.Base.{ℕ, zero, suc, ◌+◌, ◌%◌, Option, none, some, List, [], ◌∷◌}
use git.Steps.{Reach}

-- The loops run five rounds.
abbrev pub rounds : ℕ
rounds = 5

-- Where the producer stands, with the rounds that it has left behind this one.
pub data Producer : Type 0 where
  make : ℕ → Producer  -- the test of the loop: rounds left
  locking : ℕ → ℕ → Producer  -- before pthread_mutex_lock, with mp->num
  linking : ℕ → ℕ → Producer  -- before `mp->next=head; head=mp;`
  unlocking : ℕ → Producer
  signalling : ℕ → Producer

pub data Consumer : Type 0 where
  loop : ℕ → Consumer  -- the test of the loop: rounds left
  locking : ℕ → Consumer
  testing : ℕ → Consumer  -- `while (head==NULL)`, holding the lock
  waiting : ℕ → Consumer  -- in pthread_cond_wait, without the lock
  woken : ℕ → Consumer  -- in pthread_cond_wait, to take the lock again
  taking : ℕ → Consumer  -- before `mp=head; head=mp->next;`
  unlocking : ℕ → ℕ → Consumer  -- with mp->num
  printing : ℕ → ℕ → Consumer

pub data Owner : Type 0 where
  free by_producer by_consumer : Owner

pub record State : Type 0 where
  pub prod : Producer
  pub cons : Consumer
  pub lock : Owner
  pub head : List ℕ
  pub produced : List ℕ  -- what "Produce %d" has printed, the latest first
  pub consumed : List ℕ  -- what "Consume %d" has printed, the latest first

-- `main`, after both calls of pthread_create.
abbrev pub init : State
init = record {
  prod = make rounds;
  cons = loop rounds;
  lock = free;
  head = [];
  produced = [];
  consumed = [];
}

-- Who moves: the producer, with what `rand` returns; the consumer; or a waiting consumer wakes up
-- with no signal, as POSIX allows.
pub data Actor : Type 0 where
  producer : ℕ → Actor
  consumer : Actor
  spurious : Actor

-- `pthread_cond_signal`
unfoldable pub wake : Consumer → Consumer
wake (waiting n) = woken n
wake (loop n) = loop n
wake (locking n) = locking n
wake (testing n) = testing n
wake (woken n) = woken n
wake (taking n) = taking n
wake (unlocking n v) = unlocking n v
wake (printing n v) = printing n v

-- `pthread_mutex_lock` by the producer; `none` is a thread that cannot move.
unfoldable pub lock_producer : Owner → State → Option State
lock_producer free s = some (record s { lock = by_producer })
lock_producer by_producer s = none
lock_producer by_consumer s = none

unfoldable pub lock_consumer : Owner → State → Option State
lock_consumer free s = some (record s { lock = by_consumer })
lock_consumer by_producer s = none
lock_consumer by_consumer s = none

unfoldable pub move_producer : ℕ → Producer → State → Option State
unfolding lock_producer wake
move_producer rand (make zero) s = none
move_producer rand (make (suc n)) s =
    let v = rand % 1000 + 1 in some (record s { prod = locking n v; produced = v ∷ s.produced })
move_producer rand (locking n v) s = lock_producer s.lock (record s { prod = linking n v })
move_producer rand (linking n v) s = some (record s { prod = unlocking n; head = v ∷ s.head })
move_producer rand (unlocking n) s = some (record s { prod = signalling n; lock = free })
move_producer rand (signalling n) s = some (record s { prod = make n; cons = wake s.cons })

-- `while (head==NULL)`
unfoldable pub test_head : ℕ → List ℕ → State → Option State
test_head n [] s = some (record s { cons = waiting n; lock = free })
test_head n (v ∷ rest) s = some (record s { cons = taking n })

-- `mp=head; head=mp->next;`, which needs a node.
unfoldable pub take_head : ℕ → List ℕ → State → Option State
take_head n [] s = none
take_head n (v ∷ rest) s = some (record s { cons = unlocking n v; head = rest })

unfoldable pub move_consumer : Consumer → State → Option State
unfolding lock_consumer test_head take_head
move_consumer (loop zero) s = none
move_consumer (loop (suc n)) s = some (record s { cons = locking n })
move_consumer (locking n) s = lock_consumer s.lock (record s { cons = testing n })
move_consumer (testing n) s = test_head n s.head s
move_consumer (waiting n) s = none
move_consumer (woken n) s = lock_consumer s.lock (record s { cons = testing n })
move_consumer (taking n) s = take_head n s.head s
move_consumer (unlocking n v) s = some (record s { cons = printing n v; lock = free })
move_consumer (printing n v) s = some (record s { cons = loop n; consumed = v ∷ s.consumed })

unfoldable pub wake_spuriously : Consumer → State → Option State
wake_spuriously (waiting n) s = some (record s { cons = woken n })
wake_spuriously _ s = none

unfoldable pub step : Actor → State → Option State
step (producer rand) s = move_producer rand s.prod s
step consumer s = move_consumer s.cons s
step spurious s = wake_spuriously s.cons s

-- The states that the threads reach.
abbrev pub Reached : State → Type 0
Reached = Reach step init
