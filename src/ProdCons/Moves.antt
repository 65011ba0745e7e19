-- ===== src/ProdCons/Moves.antt =====
-- Every move of a thread keeps the invariant.
use git.Base.{ℕ, zero, suc, ◌+◌, ◌%◌, ◌≡◌, refl, sym, ◌∙◌, true, false, List, [], ◌∷◌, arith}
use git.Steps.{Keeps}
use git.ProdCons.Threads.{
  Producer, make, linking, signalling, Consumer, loop, testing, waiting, woken, taking, printing,
  Owner, free, by_producer, by_consumer, wake, move_producer, test_head, take_head, move_consumer,
  wake_spuriously,
}
use git.ProdCons.Shape.{
  holds_lock, to_take, to_consume, count, held_by_consumer, pending, Fits, Inv, state,
}

Fits-pending :
    (p q : Producer) (c : Consumer) (xs : List ℕ)
    → pending q ≡ pending p
    → Fits p c xs
    → Fits q c xs
Fits-pending p q (waiting n) xs e f = λ g. f (sym e ∙ g)
Fits-pending p q (taking n) xs e f = f
Fits-pending p q _ xs e f = tt

Fits-cons :
    (p q : Producer) (c : Consumer) (x : ℕ) (xs : List ℕ) → pending q ≡ true → Fits q c (x ∷ xs)
Fits-cons p q (waiting n) x xs e = λ g. cc
Fits-cons p q (taking n) x xs e = omega arith
Fits-cons p q _ x xs e = tt

Fits-wake : (p q : Producer) (c : Consumer) (xs : List ℕ) → Fits p c xs → Fits q (wake c) xs
unfolding wake
Fits-wake p q (waiting n) xs f = tt
Fits-wake p q (taking n) xs f = f
Fits-wake p q _ xs f = tt

-- A signal changes nothing else about the consumer.
wake-same :
    (c : Consumer)
    → (holds_lock (wake c) ≡ holds_lock c)
      × (to_take (wake c) ≡ to_take c)
      × (to_consume (wake c) ≡ to_consume c)
      × ((v : ℕ) → held_by_consumer v (wake c) ≡ held_by_consumer v c)
unfolding wake
wake-same (waiting n) = (refl, refl, refl, λ v. refl)
wake-same _ = (refl, refl, refl, λ v. refl)

module _ (rand : ℕ) (xs made used : List ℕ) where
  pub move_producer-Inv :
      (p : Producer) (c : Consumer) (o : Owner)
      → Inv (state p c o xs made used)
      → Keeps Inv (move_producer rand p (state p c o xs made used))
  unfolding move_producer count
  move_producer-Inv (make zero) c o v = tt
  move_producer-Inv (make (suc n)) c o v = record {
    exclusive = v.exclusive;
    owned = v.owned;
    balance = v.balance;
    makes = omega (arith, v.makes);
    uses = omega (arith, v.uses);
    fits = Fits-pending (make (suc n)) (Producer.locking n (rand % 1000 + 1)) c xs refl v.fits;
    kept = λ w. omega (arith, v.kept w);
  }
  move_producer-Inv (Producer.locking n x) c free v = record {
    exclusive = ground (arith, v.owned);
    owned = refl;
    balance = v.balance;
    makes = omega (arith, v.makes);
    uses = omega (arith, v.uses);
    fits = Fits-pending (Producer.locking n x) (linking n x) c xs refl v.fits;
    kept = v.kept;
  }
  move_producer-Inv (Producer.locking n x) c by_producer v = tt
  move_producer-Inv (Producer.locking n x) c by_consumer v = tt
  move_producer-Inv (linking n x) c o v = record {
    exclusive = v.exclusive;
    owned = v.owned;
    balance = omega (arith, v.balance);
    makes = omega (arith, v.makes);
    uses = omega (arith, v.uses);
    fits = Fits-cons (linking n x) (Producer.unlocking n) c x xs refl;
    kept = λ w. omega (arith, v.kept w);
  }
  move_producer-Inv (Producer.unlocking n) c o v = record {
    exclusive = refl;
    owned = rw v.exclusive;
    balance = v.balance;
    makes = omega (arith, v.makes);
    uses = omega (arith, v.uses);
    fits = Fits-pending (Producer.unlocking n) (signalling n) c xs refl v.fits;
    kept = v.kept;
  }
  move_producer-Inv (signalling n) c o v =
      let (lock, take, use_same, held) = wake-same c in
      record {
        exclusive = refl;
        owned = rw lock v.owned;
        balance = rw take v.balance;
        makes = v.makes;
        uses = rw use_same v.uses;
        fits = Fits-wake (signalling n) (make n) c xs v.fits;
        kept = λ w. rw (held w) (v.kept w);
      }

-- The consumer takes the lock, from outside or on its way back from the wait.
acquire-Inv :
    (n : ℕ) (p : Producer) (c : Consumer) (xs made used : List ℕ)
    → holds_lock c ≡ false
    → to_take c ≡ suc n
    → to_consume c ≡ suc n
    → ((v : ℕ) → held_by_consumer v c ≡ 0)
    → Inv (state p c free xs made used)
    → Inv (state p (testing n) by_consumer xs made used)
acquire-Inv n p c xs made used out take use_same empty v = record {
  exclusive = ground (arith, v.owned);
  owned = ground (arith, v.owned);
  balance = omega (arith, v.balance);
  makes = omega (arith, v.makes);
  uses = omega (arith, v.uses);
  fits = tt;
  kept = λ w. omega (arith, v.kept w, empty w);
}

test_head-Inv :
    (n : ℕ) (xs : List ℕ) (p : Producer) (o : Owner) (made used : List ℕ)
    → Inv (state p (testing n) o xs made used)
    → Keeps Inv (test_head n xs (state p (testing n) o xs made used))
unfolding test_head
test_head-Inv n [] p o made used v = record {
  exclusive = ground arith;
  owned = ground (arith, v.exclusive);
  balance = v.balance;
  makes = omega (arith, v.makes);
  uses = omega (arith, v.uses);
  fits = λ e. refl;
  kept = v.kept;
}
test_head-Inv n (x ∷ xs) p o made used v = record {
  exclusive = v.exclusive;
  owned = v.owned;
  balance = v.balance;
  makes = omega (arith, v.makes);
  uses = omega (arith, v.uses);
  fits = omega arith;
  kept = v.kept;
}

take_head-Inv :
    (n : ℕ) (xs : List ℕ) (p : Producer) (o : Owner) (made used : List ℕ)
    → Inv (state p (taking n) o xs made used)
    → Keeps Inv (take_head n xs (state p (taking n) o xs made used))
unfolding take_head count
take_head-Inv n [] p o made used v = tt
take_head-Inv n (x ∷ xs) p o made used v = record {
  exclusive = v.exclusive;
  owned = v.owned;
  balance = omega (arith, v.balance);
  makes = omega (arith, v.makes);
  uses = omega (arith, v.uses);
  fits = tt;
  kept = λ w. omega (arith, v.kept w);
}

module _ (xs made used : List ℕ) where
  pub move_consumer-Inv :
      (c : Consumer) (p : Producer) (o : Owner)
      → Inv (state p c o xs made used)
      → Keeps Inv (move_consumer c (state p c o xs made used))
  unfolding move_consumer count
  move_consumer-Inv (loop zero) p o v = tt
  move_consumer-Inv (loop (suc n)) p o v = record {
    exclusive = v.exclusive;
    owned = v.owned;
    balance = v.balance;
    makes = omega (arith, v.makes);
    uses = omega (arith, v.uses);
    fits = tt;
    kept = v.kept;
  }
  move_consumer-Inv (waiting n) p o v = tt
  move_consumer-Inv (Consumer.locking n) p free v =
      acquire-Inv n p (Consumer.locking n) xs made used refl refl refl (λ w. refl) v
  move_consumer-Inv (Consumer.locking n) p by_producer v = tt
  move_consumer-Inv (Consumer.locking n) p by_consumer v = tt
  move_consumer-Inv (woken n) p free v =
      acquire-Inv n p (woken n) xs made used refl refl refl (λ w. refl) v
  move_consumer-Inv (woken n) p by_producer v = tt
  move_consumer-Inv (woken n) p by_consumer v = tt
  move_consumer-Inv (testing n) p o v = test_head-Inv n xs p o made used v
  move_consumer-Inv (taking n) p o v = take_head-Inv n xs p o made used v
  move_consumer-Inv (Consumer.unlocking n x) p o v = record {
    exclusive = ground arith;
    owned = ground (arith, v.exclusive);
    balance = v.balance;
    makes = omega (arith, v.makes);
    uses = omega (arith, v.uses);
    fits = tt;
    kept = v.kept;
  }
  move_consumer-Inv (printing n x) p o v = record {
    exclusive = v.exclusive;
    owned = v.owned;
    balance = v.balance;
    makes = omega (arith, v.makes);
    uses = omega (arith, v.uses);
    fits = tt;
    kept = λ w. omega (arith, v.kept w);
  }

  pub wake_spuriously-Inv :
      (c : Consumer) (p : Producer) (o : Owner)
      → Inv (state p c o xs made used)
      → Keeps Inv (wake_spuriously c (state p c o xs made used))
  unfolding wake_spuriously
  wake_spuriously-Inv (waiting n) p o v = record {
    exclusive = v.exclusive;
    owned = v.owned;
    balance = v.balance;
    makes = omega (arith, v.makes);
    uses = omega (arith, v.uses);
    fits = tt;
    kept = v.kept;
  }
  wake_spuriously-Inv _ p o v = tt
