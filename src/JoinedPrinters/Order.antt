-- ===== src/JoinedPrinters/Order.antt =====
-- What the threads have printed when main returns.
use git.Base.{
  ℕ, zero, suc, ◌≤◌, ◌<◌, ◌≡◌, ◌≢◌, ◌⊎◌, inl, inr, refl, ap, ◌∙◌, true, Option, none, some, List,
  [], ◌∷◌, ltb, Bool-cases, arith,
}
use git.Steps.{Keeps, Moves, moved, Reach-keeps}
use git.JoinedPrinters.Threads.{
  Line, numbers, argument, Place, unborn, testing, naming, ended, Main, creating1, creating2,
  joining1, joining2, returned, State, rounds, thread_func, has_ended, main_step, after1, after2,
  Who, whole, tid1, tid2, step, init, Reached,
}

-- The lines of `n` rounds, the latest first.
lines : ℕ → List Line
lines zero = []
lines (suc n) = argument ∷ numbers ∷ lines n

Printed : Place → List Line → Type 0
Printed unborn out = out ≡ []
Printed (testing i) out = (i ≤ rounds) × (out ≡ lines i)
Printed (naming i) out = (i < rounds) × (out ≡ numbers ∷ lines i)
Printed ended out = out ≡ lines rounds

-- Which threads main has created, and which it has seen end.
Stands : Main → Place → Place → Type 0
Stands creating1 p q = (p ≡ unborn) × (q ≡ unborn)
Stands creating2 p q = (p ≢ unborn) × (q ≡ unborn)
Stands joining1 p q = (p ≢ unborn) × (q ≢ unborn)
Stands joining2 p q = (p ≡ ended) × (q ≢ unborn)
Stands returned p q = (p ≡ ended) × (q ≡ ended)

record Inv (s : State) : Type 0 where
  stands : Stands s.main s.one s.two
  first : Printed s.one s.out1
  second : Printed s.two s.out2

-- A thread that moves is neither unborn nor ended before, and not unborn after.
record Advanced (p p' : Place) (out : List Line) : Type 0 where
  born : p ≢ unborn
  alive : p ≢ ended
  still : p' ≢ unborn
  printed : Printed p' out

thread_func-Advanced :
    (p : Place) (out : List Line) → Printed p out → Moves (Advanced p) (thread_func p out)
unfolding thread_func Printed lines
thread_func-Advanced unborn out h = tt
thread_func-Advanced ended out h = tt
thread_func-Advanced (naming i) out h = record {
  born = λ e. cc;
  alive = λ e. cc;
  still = λ e. cc;
  printed = (h.0, ap (λ l. argument ∷ l) h.1);
}
thread_func-Advanced (testing i) out h = elim (Bool-cases (ltb i rounds)) [
  | inl e ↦
      let below : i < rounds = ground (arith, e) in
      rw e record {
        born = λ x. cc;
        alive = λ x. cc;
        still = λ x. cc;
        printed = (below, ap (λ l. numbers ∷ l) h.1);
      }
  | inr e ↦
      let last : i ≡ rounds = ground (arith, e, h.0) in
      rw e
        record { born = λ x. cc; alive = λ x. cc; still = λ x. cc; printed = h.1 ∙ ap lines last }
]

Stands-first :
    (m : Main) (p p' q : Place)
    → p ≢ unborn
    → p ≢ ended
    → p' ≢ unborn
    → Stands m p q
    → Stands m p' q
unfolding Stands
Stands-first creating1 p p' q b a n h = elim (b h.0) [ ]
Stands-first creating2 p p' q b a n h = (n, h.1)
Stands-first joining1 p p' q b a n h = (n, h.1)
Stands-first joining2 p p' q b a n h = elim (a h.0) [ ]
Stands-first returned p p' q b a n h = elim (a h.0) [ ]

Stands-second :
    (m : Main) (p q q' : Place)
    → q ≢ unborn
    → q ≢ ended
    → q' ≢ unborn
    → Stands m p q
    → Stands m p q'
unfolding Stands
Stands-second creating1 p q q' b a n h = elim (b h.1) [ ]
Stands-second creating2 p q q' b a n h = elim (b h.1) [ ]
Stands-second joining1 p q q' b a n h = (h.0, n)
Stands-second joining2 p q q' b a n h = (h.0, n)
Stands-second returned p q q' b a n h = elim (a h.1) [ ]

after1-Inv :
    (s : State) (r : Option (Place × List Line))
    → Inv s
    → Moves (Advanced s.one) r
    → Keeps Inv (after1 s r)
unfolding after1
after1-Inv s none v m = tt
after1-Inv s (some (p, out)) v m = record {
  stands = Stands-first s.main s.one p s.two m.born m.alive m.still v.stands;
  first = m.printed;
  second = v.second;
}

after2-Inv :
    (s : State) (r : Option (Place × List Line))
    → Inv s
    → Moves (Advanced s.two) r
    → Keeps Inv (after2 s r)
unfolding after2
after2-Inv s none v m = tt
after2-Inv s (some (p, out)) v m = record {
  stands = Stands-second s.main s.one s.two p m.born m.alive m.still v.stands;
  first = v.first;
  second = m.printed;
}

started : (p : Place) (out : List Line) → p ≡ unborn → Printed p out → Printed (testing 0) out
unfolding Printed lines
started unborn out e h = (omega arith, h)
started (testing i) out e h = cc e
started (naming i) out e h = cc e
started ended out e h = cc e

has_ended-true : (p : Place) → has_ended p ≡ true → p ≡ ended
unfolding has_ended
has_ended-true unborn e = cc e
has_ended-true (testing i) e = cc e
has_ended-true (naming i) e = cc e
has_ended-true ended e = refl

-- A thread that has been created goes on, or has ended.
ended_or_moves :
    (p : Place) (out : List Line)
    → p ≢ unborn
    → (has_ended p ≡ true) ⊎ (moved (thread_func p out) ≡ true)
unfolding has_ended thread_func
ended_or_moves unborn out n = elim (n refl) [ ]
ended_or_moves (testing i) out n = inr refl
ended_or_moves (naming i) out n = inr refl
ended_or_moves ended out n = inl refl

main_step-Inv : (s : State) (m : Main) → Inv s → Stands m s.one s.two → Keeps Inv (main_step s m)
unfolding main_step Stands
main_step-Inv s creating1 v h = record {
  stands = ((λ e. cc), h.1);
  first = started s.one s.out1 h.0 v.first;
  second = v.second;
}
main_step-Inv s creating2 v h = record {
  stands = (h.0, (λ e. cc));
  first = v.first;
  second = started s.two s.out2 h.1 v.second;
}
main_step-Inv s joining1 v h = elim (Bool-cases (has_ended s.one)) [
  | inl e ↦
      rw e record { stands = (has_ended-true s.one e, h.1); first = v.first; second = v.second }
  | inr e ↦ rw e tt
]
main_step-Inv s joining2 v h = elim (Bool-cases (has_ended s.two)) [
  | inl e ↦
      rw e record { stands = (h.0, has_ended-true s.two e); first = v.first; second = v.second }
  | inr e ↦ rw e tt
]
main_step-Inv s returned v h = tt

step-Inv : (w : Who) (s : State) → Inv s → Keeps Inv (step w s)
unfolding step
step-Inv whole s v = main_step-Inv s s.main v v.stands
step-Inv tid1 s v =
    after1-Inv s (thread_func s.one s.out1) v (thread_func-Advanced s.one s.out1 v.first)
step-Inv tid2 s v =
    after2-Inv s (thread_func s.two s.out2) v (thread_func-Advanced s.two s.out2 v.second)

abbrev CanMove : State → Type 0
CanMove s = (w : Who) × (moved (step w s) ≡ true)

after1-moved :
    (s : State) (r : Option (Place × List Line)) → moved r ≡ true → moved (after1 s r) ≡ true
unfolding after1
after1-moved s none e = e
after1-moved s (some (p, out)) e = refl

after2-moved :
    (s : State) (r : Option (Place × List Line)) → moved r ≡ true → moved (after2 s r) ≡ true
unfolding after2
after2-moved s none e = e
after2-moved s (some (p, out)) e = refl

Printed-ended : (p : Place) (out : List Line) → p ≡ ended → Printed p out → out ≡ lines rounds
unfolding Printed
Printed-ended unborn out e h = cc e
Printed-ended (testing i) out e h = cc e
Printed-ended (naming i) out e h = cc e
Printed-ended ended out e h = h

join1-moves : (s : State) → s.main ≡ joining1 → s.one ≢ unborn → CanMove s
unfolding step main_step
join1-moves s m n = elim (ended_or_moves s.one s.out1 n) [
  | inl e ↦ (whole, rw (m, e) refl)
  | inr e ↦ (tid1, after1-moved s (thread_func s.one s.out1) e)
]

join2-moves : (s : State) → s.main ≡ joining2 → s.two ≢ unborn → CanMove s
unfolding step main_step
join2-moves s m n = elim (ended_or_moves s.two s.out2 n) [
  | inl e ↦ (whole, rw (m, e) refl)
  | inr e ↦ (tid2, after2-moved s (thread_func s.two s.out2) e)
]

at_main :
    (s : State) (m : Main)
    → s.main ≡ m
    → Stands m s.one s.two
    → Inv s
    → CanMove s ⊎ ((s.main ≡ returned) × (s.out1 ≡ lines rounds) × (s.out2 ≡ lines rounds))
unfolding Stands step main_step
at_main s creating1 e h v = inl (whole, rw e refl)
at_main s creating2 e h v = inl (whole, rw e refl)
at_main s joining1 e h v = inl (join1-moves s e h.0)
at_main s joining2 e h v = inl (join2-moves s e h.1)
at_main s returned e h v =
    inr (e, Printed-ended s.one s.out1 h.0 v.first, Printed-ended s.two s.out2 h.1 v.second)

-- In every order of their calls, main of create_tid.c or one of its threads can go on, until main returns;
-- by then each thread has printed its two lines ten times, in turns.
Reached-returns :
    {s : State}
    → Reached s
    → CanMove s ⊎ ((s.main ≡ returned) × (s.out1 ≡ lines rounds) × (s.out2 ≡ lines rounds))
unfolding Stands Printed
Reached-returns {s} r =
    let v =
      Reach-keeps step init Inv record { stands = (refl, refl); first = refl; second = refl }
        step-Inv r in
    at_main s s.main refl v.stands v
