-- ===== src/SemCount/InTurn.antt =====
-- The run that the calls of `sleep` are for: a round of the producer, then one of the consumer.
use git.Base.{
  ℕ, zero, suc, ◌+◌, ◌<◌, ◌≡◌, refl, ap, ◌∙◌, true, false, ltb, Option, none, some, List, [], ◌∷◌,
  ◌++◌, ◌==◌, replicate, arith,
}
use git.Base.Integers.{pos, increment, decrement}
use mathlib.Core.Path.{subst}
use mathlib.Core.Option.{some-injective}
use git.Steps.{next}
use git.SemCount.Threads.{
  last_mark, rounds, Thread, pid1, pid2, Line, product, consum, testing, raising, waiting,
  comparing, lowering, made, taken, State, store, value, write_at, print_at, sem_wait, show_at,
  test_at, place, produucer, consumer, after1, after2, init, step, Reached,
}

-- The steps of a list of turns; `none` if a thread cannot make its step.
unfoldable pub run : (ℕ → ℕ) → List Thread → State → Option State
run rand [] s = some s
run rand (w ∷ ws) s = elim (step rand w s) [ none ↦ none | some t ↦ run rand ws t ]

then-Reach :
    (rand : ℕ → ℕ) (w : Thread) (ws : List Thread) (s t : State) (o : Option State)
    → step rand w s ≡ o
    → Reached rand s
    → ((u : State) → Reached rand u → run rand ws u ≡ some t → Reached rand t)
    → elim o [ none ↦ none | some u ↦ run rand ws u ] ≡ some t
    → Reached rand t
then-Reach rand w ws s t none f r k e = cc e
then-Reach rand w ws s t (some u) f r k e = k u (next w r f) e

pub run-Reach :
    (rand : ℕ → ℕ) (ws : List Thread) (s t : State)
    → Reached rand s
    → run rand ws s ≡ some t
    → Reached rand t
unfolding run
run-Reach rand [] s t r e = subst (Reached rand) (some-injective s t e) r
run-Reach rand (w ∷ ws) s t r e =
    then-Reach rand w ws s t (step rand w s) refl r (λ u. run-Reach rand ws u t) e

-- The values printed in the first `k` rounds, the latest first.
unfoldable pub lines : (ℕ → ℕ) → ℕ → List Line
lines rand zero = []
lines rand (suc k) = consum (value rand k) ∷ product (value rand k) ∷ lines rand k

-- A round of each thread, and the last of each.
abbrev pub turn : List Thread
turn = replicate 8 pid1 ++ replicate 7 pid2

abbrev last_turn : List Thread
last_turn = replicate 8 pid1 ++ replicate 5 pid2 ++ (pid1 ∷ [])

unfoldable pub turns : ℕ → List Thread
turns zero = []
turns (suc k) = turn ++ turns k

-- Between two rounds.
abbrev between : ℕ → (ℕ → ℕ) → List Line → State
between i buf out = record {
  making = testing;
  taking = waiting;
  shared = record { mysem = 0; buf = buf; idx = pos 0; i = i; out = out };
}

run-step :
    (rand : ℕ → ℕ) (w : Thread) (ws : List Thread) (s t : State)
    → step rand w s ≡ some t
    → run rand (w ∷ ws) s ≡ run rand ws t
unfolding run
run-step rand w ws s t e = rw (run, e) refl

-- Where the producer has tested its counter, and where the consumer is about to compare.
abbrev tested : ℕ → (ℕ → ℕ) → List Line → State
tested i buf out = record (between i buf out) { making = raising }

abbrev read : ℕ → (ℕ → ℕ) → List Line → State
read i buf out = record {
  making = testing;
  taking = comparing (pos 1);
  shared = record { mysem = 0; buf = buf; idx = pos 1; i = i; out = out };
}

-- What both rounds leave in `buf`.
abbrev filled : (ℕ → ℕ) → ℕ → (ℕ → ℕ) → ℕ → ℕ
filled rand i buf = store 1 (value rand i) buf

value-plain :
    (rand : ℕ → ℕ) (i : ℕ)
    → i < 9
    → (rand i == last_mark) ≡ false
    → (value rand i == last_mark) ≡ false
unfolding value
value-plain rand i early e = let other : (i == 9) ≡ false = ground (arith, early) in rw other e

module _ (rand : ℕ → ℕ) (i : ℕ) (buf : ℕ → ℕ) (h : i < rounds) where
  to_read :
      (ws : List Thread)
      → run rand (replicate 8 pid1 ++ replicate 4 pid2 ++ ws) (between i buf (lines rand i))
        ≡ run rand ws (read (suc i) (filled rand i buf) (lines rand (suc i)))
  unfolding run step produucer consumer after1 after2 write_at print_at show_at test_at sem_wait
      place store increment decrement lines
  to_read ws =
      let room : ltb i rounds ≡ true = ground (arith, h) in
      run-step rand pid1 (replicate 7 pid1 ++ replicate 4 pid2 ++ ws) (between i buf (lines rand i))
        (tested i buf (lines rand i)) (rw room refl)
      ∙ refl

  turn-run :
      (ws : List Thread)
      → (rand i == last_mark) ≡ false
      → i < 9
      → run rand (turn ++ ws) (between i buf (lines rand i))
        ≡ run rand ws (between (suc i) (filled rand i buf) (lines rand (suc i)))
  unfolding run step consumer after2 test_at place store decrement
  turn-run ws e early =
      let plain : (value rand i == last_mark) ≡ false = value-plain rand i early e in
      to_read (replicate 3 pid2 ++ ws)
      ∙ run-step rand pid2 (replicate 2 pid2 ++ ws)
          (read (suc i) (filled rand i buf) (lines rand (suc i)))
          (record (read (suc i) (filled rand i buf) (lines rand (suc i))) { taking = lowering })
          (rw plain refl)
      ∙ refl

turns-run :
    (rand : ℕ → ℕ) (plain : (k : ℕ) → k < 9 → (rand k == last_mark) ≡ false)
    → (n i : ℕ) (buf : ℕ → ℕ) (ws : List Thread) → n + i ≡ 9
    → (b : ℕ → ℕ) × (run rand (turns n ++ ws) (between i buf (lines rand i))
        ≡ run rand ws (between 9 b (lines rand 9)))
unfolding turns
turns-run rand plain zero i buf ws e =
    (buf, ap (λ k. run rand ws (between k buf (lines rand k))) (omega (arith, e)))
turns-run rand plain (suc n) i buf ws e =
    let (b, r) = turns-run rand plain n (suc i) (filled rand i buf) ws (omega (arith, e)) in
    (
      b,
      turn-run rand i buf (omega (arith, e)) (turns n ++ ws) (plain i (omega (arith, e)))
            (omega (arith, e))
          ∙ r,
    )

-- If `rand` does not give the mark in the first nine rounds, then in turns of a round each the two
-- threads both end, and the consumer has printed each number right behind the producer.
in_turn :
    (rand : ℕ → ℕ)
    → ((k : ℕ) → k < 9 → (rand k == last_mark) ≡ false)
    → (s : State) × (run rand (turns 9 ++ last_turn) init ≡ some s)
      × (s.making ≡ made)
      × (s.taking ≡ taken)
      × (s.shared.out ≡ lines rand rounds)
unfolding run step produucer consumer after1 after2 test_at place store value lines
in_turn rand plain =
    let (b, r) = turns-run rand plain 9 0 (λ k. 0) last_turn refl in
    (
      record {
        making = made;
        taking = taken;
        shared = record {
          mysem = 0;
          buf = filled rand 9 b;
          idx = pos 1;
          i = rounds;
          out = lines rand rounds;
        };
      },
      r ∙ to_read rand 9 b (omega arith) (pid2 ∷ pid1 ∷ []) ∙ refl,
      refl,
      refl,
      refl,
    )
