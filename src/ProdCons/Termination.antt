-- ===== src/ProdCons/Termination.antt =====
-- Every run of the threads comes to an end.
use mathlib.Core.Option.{some-injective}
use git.Base.{
  ℕ, zero, suc, ◌+◌, ◌*◌, ◌≤◌, ◌<◌, ◌≡◌, ◌⊎◌, inl, inr, refl, sym, Option, none, some, List, [],
  ◌∷◌, length, arith,
}
use git.Steps.{next}
use git.ProdCons.Threads.{
  rounds, Producer, make, linking, signalling, Consumer, loop, testing, waiting, woken, taking,
  printing, Owner, free, by_producer, by_consumer, State, Actor, producer, consumer, spurious, wake,
  lock_producer, lock_consumer, move_producer, test_head, take_head, move_consumer, step, init,
  Reached,
}
use git.ProdCons.Shape.{count, state}
use git.ProdCons.Progress.{IsFinished, CanMove, deadlock_free, Reach-result}

-- What is left to do. A signal may send a waiting consumer round again, so a step of the producer
-- weighs four of the consumer's.
unfoldable pub left_producer : Producer → ℕ
left_producer (make n) = 5 * n
left_producer (Producer.locking n v) = 5 * n + 4
left_producer (linking n v) = 5 * n + 3
left_producer (Producer.unlocking n) = 5 * n + 2
left_producer (signalling n) = 5 * n + 1

unfoldable pub left_consumer : Consumer → ℕ
left_consumer (loop n) = 8 * n
left_consumer (Consumer.locking n) = 8 * n + 7
left_consumer (woken n) = 8 * n + 6
left_consumer (testing n) = 8 * n + 5
left_consumer (waiting n) = 8 * n + 4
left_consumer (taking n) = 8 * n + 3
left_consumer (Consumer.unlocking n v) = 8 * n + 2
left_consumer (printing n v) = 8 * n + 1

unfoldable pub left : State → ℕ
left s = 4 * left_producer s.prod + left_consumer s.cons

abbrev Less : ℕ → Option State → Type 0
Less n none = Unit {0}
Less n (some t) = left t < n

Less-test :
    (n : ℕ) (xs : List ℕ) (p : Producer) (o : Owner) (made used : List ℕ)
    → Less
        (left (state p (testing n) o xs made used))
        (test_head n xs (state p (testing n) o xs made used))
unfolding test_head left left_consumer
Less-test n [] p o made used = omega arith
Less-test n (x ∷ xs) p o made used = omega arith

Less-take :
    (n : ℕ) (xs : List ℕ) (p : Producer) (o : Owner) (made used : List ℕ)
    → Less
        (left (state p (taking n) o xs made used))
        (take_head n xs (state p (taking n) o xs made used))
unfolding take_head left left_consumer
Less-take n [] p o made used = tt
Less-take n (x ∷ xs) p o made used = omega arith

left_wake : (c : Consumer) → left_consumer (wake c) ≤ left_consumer c + 2
unfolding left_consumer wake
left_wake (waiting n) = omega arith
left_wake _ = omega arith

module _ (xs made used : List ℕ) where
  Less-producer :
      (rand : ℕ) (p : Producer) (c : Consumer) (o : Owner)
      → Less (left (state p c o xs made used)) (move_producer rand p (state p c o xs made used))
  unfolding move_producer lock_producer left left_producer
  Less-producer rand (make zero) c o = tt
  Less-producer rand (make (suc n)) c o = omega arith
  Less-producer rand (Producer.locking n v) c free = omega arith
  Less-producer rand (Producer.locking n v) c by_producer = tt
  Less-producer rand (Producer.locking n v) c by_consumer = tt
  Less-producer rand (linking n v) c o = omega arith
  Less-producer rand (Producer.unlocking n) c o = omega arith
  Less-producer rand (signalling n) c o = omega (arith, left_wake c)

  Less-consumer :
      (c : Consumer) (p : Producer) (o : Owner)
      → Less (left (state p c o xs made used)) (move_consumer c (state p c o xs made used))
  unfolding move_consumer lock_consumer left left_consumer
  Less-consumer (loop zero) p o = tt
  Less-consumer (loop (suc n)) p o = omega arith
  Less-consumer (Consumer.locking n) p free = omega arith
  Less-consumer (Consumer.locking n) p by_producer = tt
  Less-consumer (Consumer.locking n) p by_consumer = tt
  Less-consumer (woken n) p free = omega arith
  Less-consumer (woken n) p by_producer = tt
  Less-consumer (woken n) p by_consumer = tt
  Less-consumer (testing n) p o = Less-test n xs p o made used
  Less-consumer (waiting n) p o = tt
  Less-consumer (taking n) p o = Less-take n xs p o made used
  Less-consumer (Consumer.unlocking n v) p o = omega arith
  Less-consumer (printing n v) p o = omega arith

Less-some : (n : ℕ) (r : Option State) {t : State} → Less n r → r ≡ some t → left t < n
Less-some n none l e = cc
Less-some n (some u) {t} l e = rw (some-injective t u (sym e)) l

-- Every step that is not a spurious wake-up leaves less to do.
step-left :
    (a : Actor) (s : State) {t : State} → (a ≡ spurious → ⊥) → step a s ≡ some t → left t < left s
unfolding step
step-left (producer rand) s real e =
    Less-some (left s) _ (Less-producer s.head s.produced s.consumed rand s.prod s.cons s.lock) e
step-left consumer s real e =
    Less-some (left s) _ (Less-consumer s.head s.produced s.consumed s.cons s.prod s.lock) e
step-left spurious s real e = absurd (real refl)

-- Steps of the two threads, one after the other, in any order; no wait is broken without a signal.
pub data Steps : ℕ → State → State → Type 0 where
  stop : {s : State} → Steps 0 s s
  go :
      {n : ℕ} {s t u : State} (a : Actor)
      → (a ≡ spurious → ⊥)
      → step a s ≡ some t
      → Steps n t u
      → Steps (suc n) s u

Steps-left : {n : ℕ} {s t : State} → Steps n s t → n + left t ≤ left s
Steps-left stop = omega arith
Steps-left (go {s = s} a real e r) = omega (arith, step-left a s real e, Steps-left r)

Steps-Reach : {n : ℕ} {s t : State} → Reached s → Steps n s t → Reached t
Steps-Reach q stop = q
Steps-Reach q (go a real e r) = Steps-Reach (next a q e) r

-- Each number produced has been consumed, as often.
pub record IsComplete (s : State) : Type 0 where
  pub both : IsFinished s
  pub produced : length s.produced ≡ rounds
  pub consumed : length s.consumed ≡ rounds
  pub empty : s.head ≡ []
  pub same : (v : ℕ) → count v s.consumed ≡ count v s.produced

finished-IsComplete : {s : State} → Reached s → IsFinished s → IsComplete s
finished-IsComplete r f =
    let (made, used, none_left, same) = Reach-result r f in
    record { both = f; produced = made; consumed = used; empty = none_left; same = same }

-- From every reachable state, in whatever order the threads move while no wait is broken without a
-- signal: a run has at most as many steps as are left, of 140 at first, and where it stops one of the
-- threads can go on, or both have finished with five numbers produced and the same five consumed.
pub Steps-IsComplete :
    {n : ℕ} {s t : State}
    → Reached s
    → Steps n s t
    → (n ≤ left s) × (left init ≡ 140) × (IsComplete t ⊎ CanMove t)
unfolding left left_producer left_consumer
Steps-IsComplete q r =
    let p = Steps-Reach q r in
    (
      omega (arith, Steps-left r),
      refl,
      elim (deadlock_free p) [ inl f ↦ inl (finished-IsComplete p f) | inr m ↦ inr m ],
    )
