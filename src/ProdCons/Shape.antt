-- ===== src/ProdCons/Shape.antt =====
-- The invariant of the two threads: what the places where they stand say of the lock and the list.
use git.Base.{
  ℕ, suc, ◌+◌, ◌<◌, ◌≡◌, Bool, true, false, List, [], ◌∷◌, ◌&&◌, ◌==◌, if◌then◌else◌, length,
}
use git.ProdCons.Threads.{
  rounds, Producer, make, linking, signalling, Consumer, loop, testing, waiting, woken, taking,
  printing, Owner, free, by_producer, by_consumer, State,
}

abbrev pub in_section : Producer → Bool
in_section (linking n v) = true
in_section (Producer.unlocking n) = true
in_section _ = false

abbrev pub holds_lock : Consumer → Bool
holds_lock (testing n) = true
holds_lock (taking n) = true
holds_lock (Consumer.unlocking n v) = true
holds_lock _ = false

abbrev pub owner : Bool → Bool → Owner
owner true c = by_producer
owner false true = by_consumer
owner false false = free

-- Nodes still to link, and nodes still to take.
abbrev to_link : Producer → ℕ
to_link (make n) = n
to_link (Producer.locking n v) = suc n
to_link (linking n v) = suc n
to_link (Producer.unlocking n) = n
to_link (signalling n) = n

abbrev pub to_take : Consumer → ℕ
to_take (loop n) = n
to_take (Consumer.locking n) = suc n
to_take (testing n) = suc n
to_take (waiting n) = suc n
to_take (woken n) = suc n
to_take (taking n) = suc n
to_take (Consumer.unlocking n v) = n
to_take (printing n v) = n

-- Numbers still to print by each thread.
abbrev to_produce : Producer → ℕ
to_produce (make n) = n
to_produce (Producer.locking n v) = n
to_produce (linking n v) = n
to_produce (Producer.unlocking n) = n
to_produce (signalling n) = n

abbrev pub to_consume : Consumer → ℕ
to_consume (loop n) = n
to_consume (Consumer.locking n) = suc n
to_consume (testing n) = suc n
to_consume (waiting n) = suc n
to_consume (woken n) = suc n
to_consume (taking n) = suc n
to_consume (Consumer.unlocking n v) = suc n
to_consume (printing n v) = suc n

-- How often `v` is in a list, and in the hands of a thread.
unfoldable pub count : ℕ → List ℕ → ℕ
count v [] = 0
count v (x ∷ xs) = (if x == v then 1 else 0) + count v xs

abbrev held_by_producer : ℕ → Producer → ℕ
held_by_producer v (Producer.locking n x) = if x == v then 1 else 0
held_by_producer v (linking n x) = if x == v then 1 else 0
held_by_producer v _ = 0

abbrev pub held_by_consumer : ℕ → Consumer → ℕ
held_by_consumer v (Consumer.unlocking n x) = if x == v then 1 else 0
held_by_consumer v (printing n x) = if x == v then 1 else 0
held_by_consumer v _ = 0

-- A signal is on its way.
abbrev pub pending : Producer → Bool
pending (Producer.unlocking n) = true
pending (signalling n) = true
pending _ = false

-- What the place of the consumer says of the list.
abbrev pub Fits : Producer → Consumer → List ℕ → Type 0
Fits p (waiting n) xs = pending p ≡ false → xs ≡ []
Fits p (taking n) xs = 0 < length xs
Fits p _ xs = Unit {0}

pub record Inv (s : State) : Type 0 where
  pub exclusive : (in_section s.prod && holds_lock s.cons) ≡ false
  pub owned : s.lock ≡ owner (in_section s.prod) (holds_lock s.cons)
  pub balance : length s.head + to_link s.prod ≡ to_take s.cons
  pub makes : length s.produced + to_produce s.prod ≡ rounds
  pub uses : length s.consumed + to_consume s.cons ≡ rounds
  pub fits : Fits s.prod s.cons s.head
  pub kept :
      (v : ℕ)
      → count v s.produced
        ≡ held_by_producer v s.prod
          + count v s.head
          + held_by_consumer v s.cons
          + count v s.consumed

abbrev pub state : Producer → Consumer → Owner → List ℕ → List ℕ → List ℕ → State
state p c o xs made used = record {
  prod = p;
  cons = c;
  lock = o;
  head = xs;
  produced = made;
  consumed = used;
}
