-- ===== src/ProdCons/Invariant.antt =====
-- What holds in every state that the two threads reach.
use git.Base.{refl, arith}
use git.Steps.{Keeps, Reach-keeps}
use git.ProdCons.Threads.{State, Actor, producer, consumer, spurious, step, Reached, init}
use git.ProdCons.Shape.{count, Inv}
use git.ProdCons.Moves.{move_producer-Inv, move_consumer-Inv, wake_spuriously-Inv}

step-Inv : (a : Actor) (s : State) → Inv s → Keeps Inv (step a s)
unfolding step
step-Inv (producer rand) s v =
    move_producer-Inv rand s.head s.produced s.consumed s.prod s.cons s.lock v
step-Inv consumer s v = move_consumer-Inv s.head s.produced s.consumed s.cons s.prod s.lock v
step-Inv spurious s v = wake_spuriously-Inv s.head s.produced s.consumed s.cons s.prod s.lock v

init-Inv : Inv init
unfolding count
init-Inv = record {
  exclusive = refl;
  owned = refl;
  balance = omega arith;
  makes = refl;
  uses = refl;
  fits = tt;
  kept = λ v. omega arith;
}

-- In every reachable state: the threads are never both in their critical sections, the lock belongs
-- to the one that is, the list is as long as the rounds say, a consumer waits beside a list that is
-- not empty only while a signal is on its way, and no number is lost or made up.
pub Reach-Inv : {s : State} → Reached s → Inv s
Reach-Inv = Reach-keeps step init Inv init-Inv step-Inv
