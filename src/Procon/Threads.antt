-- ===== src/Procon/Threads.antt =====
-- The threads of procon1.c and procon.c. `main` joins a thread before it starts another, so each runs
-- alone: a consumer that finds the list empty waits for ever. The list `head` is its numbers, the
-- lock is always free, and `sleep` does nothing.
use git.Base.{ℕ, zero, suc, ◌+◌, ◌%◌, Bool, true, false, List, [], ◌∷◌, ◌++◌}
use git.Base.Bytes.{Bytes, codes, decimal}
use git.Io.{Action, print}

-- What a thread leaves: the list, what it has printed, and whether it has ended.
pub record Ran : Type 0 where
  pub head : List ℕ
  pub printed : List Action
  pub finished : Bool

abbrev pub ran : List ℕ → List Action → Bool → Ran
ran head printed finished = record { head = head; printed = printed; finished = finished }

-- `mp->num`, for what `rand` gives.
unfoldable pub number : ℕ → ℕ
number r = r % 1000 + 1

-- The loop of `producer`, on what `rand` gives in each round; `line` is what it prints.
unfoldable pub producer : (ℕ → Bytes) → List ℕ → List ℕ → Ran
producer line [] head = ran head [] true
producer line (r ∷ rs) head =
    let rest = producer line rs (number r ∷ head) in
    record rest { printed = print (line (number r)) ∷ rest.printed }

-- The rounds of `consumer` that are left.
unfoldable pub consumer : (ℕ → Bytes) → ℕ → List ℕ → Ran
consumer line zero head = ran head [] true
consumer line (suc k) [] = ran [] [] false
consumer line (suc k) (n ∷ head) =
    let rest = consumer line k head in record rest { printed = print (line n) ∷ rest.printed }

-- What procon1.c prints, with `tid_p[P]` or `tid_c[C]`.
unfoldable p_line : ℕ → ℕ → Bytes
p_line tid n = codes "p is " ++ decimal n ++ codes "," ++ decimal tid ++ (10 ∷ [])

unfoldable c_line : ℕ → ℕ → Bytes
c_line tid n = codes "C is " ++ decimal n ++ codes "," ++ decimal tid ++ (10 ∷ [])

-- What procon.c prints, with the address of the array and what `gettid` gives.
unfoldable produce_line : ℕ → ℕ → ℕ → Bytes
produce_line address gettid n =
    codes "Produce:"
    ++ decimal n
    ++ codes ","
    ++ decimal address
    ++ codes ","
    ++ decimal gettid
    ++ (10 ∷ [])

unfoldable consume_line : ℕ → ℕ → ℕ → Bytes
consume_line address gettid n =
    codes "Consume:"
    ++ decimal n
    ++ codes ","
    ++ decimal address
    ++ codes ","
    ++ decimal gettid
    ++ (10 ∷ [])
