-- ===== src/MutexCount/Outcome.antt =====
-- Every run of the two threads ends with `g_var` at 0, and prints one thread's values before the other's.
use git.Base.{
  zero, suc, ◌≡◌, ◌⊎◌, inl, inr, refl, ap, ◌∙◌, true, Option, none, some, List, [], ◌++◌,
  append-nil,
}
use git.Steps.{Moves, Keeps, Reach-keeps, moved}
use git.Base.Integers.{ℤ, pos, increment, decrement}
use git.MutexCount.Threads.{
  Thread, th1, th2, change, rounds, Place, entering, locking, testing, writing, printing, finished,
  Shared, lock, move, State, step, Reached, init,
}
use git.MutexCount.Sections.{other, run, block, values, Before, Counted, In, Moves-mono}
use git.MutexCount.Order.{
  half_way, half_shown, Inv, unlocked, first, half, second, both, move-first, move-other,
}

abbrev InvS : State → Type 0
InvS s = Inv th1 s.one s.two s.shared ⊎ Inv th2 s.two s.one s.shared

abbrev with_one : State → Option (Place × Shared) → Option State
with_one s r = elim r [
  | none ↦ none
  | some (p, sh) ↦ some (record { one = p; two = s.two; shared = sh })
]

abbrev with_two : State → Option (Place × Shared) → Option State
with_two s r = elim r [
  | none ↦ none
  | some (p, sh) ↦ some (record { one = s.one; two = p; shared = sh })
]

with_one-Keeps :
    (s : State) (r : Option (Place × Shared))
    → Moves (λ p sh. Inv th1 p s.two sh ⊎ Inv th2 s.two p sh) r
    → Keeps InvS (with_one s r)
with_one-Keeps s none m = tt
with_one-Keeps s (some (p, sh)) m = m

with_two-Keeps :
    (s : State) (r : Option (Place × Shared))
    → Moves (λ p sh. Inv th1 s.one p sh ⊎ Inv th2 p s.one sh) r
    → Keeps InvS (with_two s r)
with_two-Keeps s none m = tt
with_two-Keeps s (some (p, sh)) m = m

step-InvS : (w : Thread) (s : State) → InvS s → Keeps InvS (step w s)
unfolding step
step-InvS th1 s (inl v) =
    with_one-Keeps s (move th1 s.one s.shared) (
      Moves-mono (move th1 s.one s.shared) (λ p sh m. inl m)
        (move-first th1 s.one s.two s.shared v))
step-InvS th1 s (inr v) = with_one-Keeps s (move th1 s.one s.shared) (
    Moves-mono (move th1 s.one s.shared) (λ p sh m. elim m [ inl v' ↦ inr v' | inr v' ↦ inl v' ])
      (move-other th2 s.two s.one s.shared v))
step-InvS th2 s (inl v) =
    with_two-Keeps s (move th2 s.two s.shared) (move-other th1 s.one s.two s.shared v)
step-InvS th2 s (inr v) =
    with_two-Keeps s (move th2 s.two s.shared) (
      Moves-mono (move th2 s.two s.shared) (λ p sh m. inr m)
        (move-first th2 s.two s.one s.shared v))

init-InvS : InvS init
unfolding values
init-InvS = inl (unlocked tt tt refl refl refl)

Reached-InvS : {s : State} → Reached s → InvS s
Reached-InvS = Reach-keeps step init InvS init-InvS step-InvS

-- Both threads have ended; the counter is back at 0, and the values printed are those of one thread
-- from 0 on and then those of the other back to 0.
pub record Ended (s : State) : Type 0 where
  pub one : s.one ≡ finished
  pub two : s.two ≡ finished
  pub zero_again : s.shared.g_var ≡ pos 0
  pub in_blocks :
      (w : Thread) × (values s.shared.out
        ≡ block (other w) rounds (run w rounds (pos 0)) ++ block w rounds (pos 0))

Before-moves :
    (w : Thread) (p : Place) (sh : Shared)
    → Before p
    → sh.mylock ≡ none
    → moved (move w p sh) ≡ true
unfolding move lock
Before-moves w entering sh b l = refl
Before-moves w locking sh b l = rw l
Before-moves w (testing n) sh b l = elim b [ ]
Before-moves w (writing n v) sh b l = elim b [ ]
Before-moves w (printing n) sh b l = elim b [ ]
Before-moves w finished sh b l = elim b [ ]

In-moves :
    (w : Thread) (base : ℤ) (old : List (Thread × ℤ)) (p : Place) (sh : Shared)
    → In w base old p sh
    → moved (move w p sh) ≡ true
unfolding move
In-moves w base old entering sh i = elim i [ ]
In-moves w base old locking sh i = elim i [ ]
In-moves w base old (testing zero) sh i = refl
In-moves w base old (testing (suc n)) sh i = refl
In-moves w base old (writing n v) sh i = refl
In-moves w base old (printing n) sh i = refl
In-moves w base old finished sh i = elim i [ ]

-- The first thread or the other moves, or both have ended.
Inv-moves :
    (w : Thread) (p q : Place) (sh : Shared)
    → Inv w p q sh
    → ((p ≡ finished) × (q ≡ finished) × Counted (other w) (half_way w) (half_shown w) rounds sh)
      ⊎ ((moved (move w p sh) ≡ true) ⊎ (moved (move (other w) q sh) ≡ true))
Inv-moves w p q sh (unlocked b c l g v) = inr (inl (Before-moves w p sh b l))
Inv-moves w p q sh (first i c l) = inr (inl (In-moves w (pos 0) [] p sh i))
Inv-moves w p q sh (half e c l k) = inr (inr (Before-moves (other w) q sh c l))
Inv-moves w p q sh (second e i l) =
    inr (inr (In-moves (other w) (half_way w) (half_shown w) q sh i))
Inv-moves w p q sh (both e f l k) = inl (e, f, k)

with_one-moved :
    (s : State) (r : Option (Place × Shared)) → moved r ≡ true → moved (with_one s r) ≡ true
with_one-moved s none e = e
with_one-moved s (some (p, sh)) e = refl

with_two-moved :
    (s : State) (r : Option (Place × Shared)) → moved r ≡ true → moved (with_two s r) ≡ true
with_two-moved s none e = e
with_two-moved s (some (p, sh)) e = refl

back_at_zero : (w : Thread) → run (other w) rounds (run w rounds (pos 0)) ≡ pos 0
unfolding run change increment decrement
back_at_zero th1 = refl
back_at_zero th2 = refl

blocks :
    (w : Thread) {sh : Shared}
    → Counted (other w) (half_way w) (half_shown w) rounds sh
    → values sh.out ≡ block (other w) rounds (run w rounds (pos 0)) ++ block w rounds (pos 0)
blocks w c =
    c.shown
    ∙ ap (λ l. block (other w) rounds (half_way w) ++ l) (append-nil (block w rounds (pos 0)))

-- In every state that the threads reach, in any order of their steps: one of them can make a step, or
-- both have ended, with `g_var` at 0 and the values of one printed before those of the other.
pub Reach-outcome :
    {s : State} → Reached s → Ended s ⊎ ((moved (step th1 s) ≡ true) ⊎ (moved (step th2 s) ≡ true))
unfolding step
Reach-outcome {s} r = elim (Reached-InvS r) [
  | inl v ↦ elim (Inv-moves th1 s.one s.two s.shared v) [
    | inl (e, f, c) ↦ inl (record {
      one = e;
      two = f;
      zero_again = c.count ∙ back_at_zero th1;
      in_blocks = (th1, blocks th1 c);
    })
    | inr (inl m) ↦ inr (inl (with_one-moved s (move th1 s.one s.shared) m))
    | inr (inr m) ↦ inr (inr (with_two-moved s (move th2 s.two s.shared) m))
  ]
  | inr v ↦ elim (Inv-moves th2 s.two s.one s.shared v) [
    | inl (e, f, c) ↦ inl (record {
      one = f;
      two = e;
      zero_again = c.count ∙ back_at_zero th2;
      in_blocks = (th2, blocks th2 c);
    })
    | inr (inl m) ↦ inr (inr (with_two-moved s (move th2 s.two s.shared) m))
    | inr (inr m) ↦ inr (inl (with_one-moved s (move th1 s.one s.shared) m))
  ]
]
