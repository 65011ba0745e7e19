-- ===== src/ProdCons/Progress.antt =====
-- The threads are never stuck, and come to an end with every number consumed.

use git.Base.{
  ℕ, zero, suc, ◌<◌, ◌≡◌, ◌⊎◌, inl, inr, refl, ap, true, false, List, [], ◌∷◌, length, arith,
}
use git.Steps.{moved}
use git.ProdCons.Threads.{
  rounds, Producer, make, linking, signalling, Consumer, loop, testing, waiting, woken, taking,
  printing, Owner, free, by_producer, by_consumer, State, producer, consumer, lock_producer,
  lock_consumer, move_producer, test_head, take_head, move_consumer, step, Reached,
}
use git.ProdCons.Shape.{in_section, owner, count, Inv, state}
use git.ProdCons.Invariant.{Reach-Inv}

-- Both threads have left their loops.
pub data IsFinished : State → Type 0 where
  finished :
      {o : Owner} {xs made used : List ℕ} → IsFinished (state (make 0) (loop 0) o xs made used)

-- The producer or the consumer can make a step; a wake-up without a signal is not counted.
abbrev pub CanMove : State → Type 0
CanMove s = ((rand : ℕ) → moved (step (producer rand) s) ≡ true) ⊎ (moved (step consumer s) ≡ true)

test_moves : (n : ℕ) (xs : List ℕ) (s : State) → moved (test_head n xs s) ≡ true
unfolding test_head
test_moves n [] s = refl
test_moves n (x ∷ xs) s = refl

take_moves : (n : ℕ) (xs : List ℕ) (s : State) → 0 < length xs → moved (take_head n xs s) ≡ true
unfolding take_head
take_moves n [] s h = elim h [ ]
take_moves n (x ∷ xs) s h = refl

module _ (xs made used : List ℕ) where
  -- The producer never ends while the consumer waits: the list would be empty, and too short.
  no_wait : (n : ℕ) (o : Owner) → Inv (state (make 0) (waiting n) o xs made used) → ⊥
  no_wait n o v =
      let empty : length xs ≡ 0 = ap (length {A = ℕ}) (v.fits refl) in omega (arith, v.balance)

  -- Outside its critical section the producer needs the lock at most.
  producer_moves :
      (p : Producer) (c : Consumer) (o : Owner)
      → ((p ≡ make 0) → ⊥)
      → (in_section p ≡ false → o ≡ free)
      → CanMove (state p c o xs made used)
  unfolding step move_producer lock_producer
  producer_moves (make zero) c o more f = absurd (more refl)
  producer_moves (make (suc n)) c o more f = inl λ r. refl
  producer_moves (Producer.locking n v) c o more f = inl λ r. rw (f refl)
  producer_moves (linking n v) c o more f = inl λ r. refl
  producer_moves (Producer.unlocking n) c o more f = inl λ r. refl
  producer_moves (signalling n) c o more f = inl λ r. refl

  -- A consumer that wants the lock: it gets it, or its owner, the producer, goes on.
  lock_moves :
      (p : Producer) (c : Consumer) (o : Owner)
      → o ≡ owner (in_section p) false
      → ((s : State) → s.lock ≡ free → s.cons ≡ c → moved (step consumer s) ≡ true)
      → CanMove (state p c o xs made used)
  lock_moves p c free e f = inr (f (state p c free xs made used) refl refl)
  lock_moves p c by_producer e f =
      producer_moves p c by_producer (λ q. ground (arith, ap in_section q)) (λ q. ground arith)
  lock_moves p c by_consumer e f = ground arith

  progress :
      (p : Producer) (c : Consumer) (o : Owner)
      → Inv (state p c o xs made used)
      → IsFinished (state p c o xs made used) ⊎ CanMove (state p c o xs made used)
  unfolding step move_consumer lock_consumer
  progress (make zero) (loop zero) o v = inl finished
  progress p (loop zero) o v =
      inr (producer_moves p (loop zero) o (λ e. cc) (λ e. ground (arith, v.owned)))
  progress p (loop (suc n)) o v = inr (inr refl)
  progress p (Consumer.locking n) o v =
      inr (lock_moves p (Consumer.locking n) o v.owned (λ s e f. rw (f, e)))
  progress p (testing n) o v = inr (inr (test_moves n xs _))
  progress (make zero) (waiting n) o v = absurd (no_wait n o v)
  progress p (waiting n) o v =
      inr (producer_moves p (waiting n) o (λ e. cc) (λ e. ground (arith, v.owned)))
  progress p (woken n) o v = inr (lock_moves p (woken n) o v.owned (λ s e f. rw (f, e)))
  progress p (taking n) o v = inr (inr (take_moves n xs _ v.fits))
  progress p (Consumer.unlocking n x) o v = inr (inr refl)
  progress p (printing n x) o v = inr (inr refl)

-- No deadlock and no lost wake-up: in every reachable state both threads have finished, or one of
-- them can make a step, with no spurious wake-up needed.
pub deadlock_free : {s : State} → Reached s → IsFinished s ⊎ CanMove s
deadlock_free {s} r = progress s.head s.produced s.consumed s.prod s.cons s.lock (Reach-Inv r)

finished-result :
    {s : State}
    → IsFinished s
    → Inv s
    → (length s.produced ≡ rounds)
      × (length s.consumed ≡ rounds)
      × (s.head ≡ [])
      × ((v : ℕ) → count v s.consumed ≡ count v s.produced)
unfolding count
finished-result (finished {xs = []}) v =
    (omega (arith, v.makes), omega (arith, v.uses), refl, λ w. omega (arith, v.kept w))
finished-result (finished {xs = x ∷ xs}) v = absurd (omega (arith, v.balance))

-- When both have finished, five numbers have been produced and five consumed, the list is empty, and
-- what was consumed is what was produced, each number as often.
pub Reach-result :
    {s : State}
    → Reached s
    → IsFinished s
    → (length s.produced ≡ rounds)
      × (length s.consumed ≡ rounds)
      × (s.head ≡ [])
      × ((v : ℕ) → count v s.consumed ≡ count v s.produced)
Reach-result r f = finished-result f (Reach-Inv r)
