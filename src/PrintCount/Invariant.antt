-- ===== src/PrintCount/Invariant.antt =====
-- The writes of both threads, and what they leave in the counter.
use git.Base.{ℕ, zero, suc, ◌+◌, ◌≤◌, ◌≡◌, refl, sym, Option, none, some, List, [], ◌∷◌, arith}
use mathlib.Core.Path.{subst}
use git.Steps.{Keeps, Moves, Reach-keeps}
use git.PrintCount.Threads.{
  rounds, Thread, tid1, tid2, Place, reading, writing, printing, Shared, move, State, after1,
  after2, step, Reached, init,
}

abbrev pub is : Thread → Thread → ℕ
is tid1 tid1 = 1
is tid1 tid2 = 0
is tid2 tid1 = 0
is tid2 tid2 = 1

-- The lines of a thread.
unfoldable pub lines : Thread → List (Thread × ℕ) → ℕ
lines t [] = 0
lines t ((u, v) ∷ out) = is t u + lines t out

-- `w` writes are done, and `l` lines printed.
abbrev pub At : Place → ℕ → ℕ → Type 0
At (reading n) w l = (w + n ≡ rounds) × (l ≡ w)
At (writing n v) w l = (w + suc n ≡ rounds) × (l ≡ w)
At (printing n v) w l = (w + n ≡ rounds) × (suc l ≡ w)

-- What a thread has read and not yet written: no more than the writes of both, and at least 1 if it
-- has written before.
abbrev Held : Place → ℕ → ℕ → Type 0
Held (reading n) w u = Unit {0}
Held (writing n v) w u = (v ≤ w + u) × (1 ≤ w → 1 ≤ v)
Held (printing n v) w u = Unit {0}

pub record Inv (p q : Place) (counter l m : ℕ) : Type 0 where
  pub w : ℕ
  pub u : ℕ
  pub at1 : At p w l
  pub at2 : At q u m
  pub held1 : Held p w u
  pub held2 : Held q u w
  pub top : counter ≤ w + u
  pub counted : 1 ≤ w + u → 1 ≤ counter
  pub bottom : w ≡ rounds → u ≡ rounds → 2 ≤ counter

-- The two threads are alike.
swap : {p q : Place} {c l m : ℕ} → Inv p q c l m → Inv q p c m l
swap v = record {
  w = v.u;
  u = v.w;
  at1 = v.at2;
  at2 = v.at1;
  held1 = v.held2;
  held2 = v.held1;
  top = omega (arith, v.top);
  counted = λ h. v.counted (omega (arith, h));
  bottom = λ e f. v.bottom f e;
}

At-bound : (p : Place) (w l : ℕ) → At p w l → w ≤ rounds
At-bound (reading n) w l a = omega (arith, a.0)
At-bound (writing n v) w l a = omega (arith, a.0)
At-bound (printing n v) w l a = omega (arith, a.0)

Held-later : (q : Place) (u w : ℕ) → Held q u w → Held q u (suc w)
Held-later (reading n) u w h = tt
Held-later (writing n v) u w h = (omega (arith, h.0), h.1)
Held-later (printing n v) u w h = tt

reads : {q : Place} {c l m : ℕ} (n : ℕ) → Inv (reading (suc n)) q c l m → Inv (writing n c) q c l m
reads n v = record {
  w = v.w;
  u = v.u;
  at1 = v.at1;
  at2 = v.at2;
  held1 = (v.top, λ h. v.counted (omega (arith, h)));
  held2 = v.held2;
  top = v.top;
  counted = v.counted;
  bottom = v.bottom;
}

writes :
    {q : Place} {c l m : ℕ} (n x : ℕ) → Inv (writing n x) q c l m → Inv (printing n x) q (suc x) l m
writes {q} {m = m} n x v = record {
  w = suc v.w;
  u = v.u;
  at1 = (omega (arith, v.at1.0), omega (arith, v.at1.1));
  at2 = v.at2;
  held1 = tt;
  held2 = Held-later q v.u v.w v.held2;
  top = omega (arith, v.held1.0);
  counted = λ h. omega arith;
  bottom = λ e f. omega (arith, v.held1.1 (omega (arith, e)));
}

prints :
    {q : Place} {c l m l' m' : ℕ} (n x : ℕ)
    → l' ≡ suc l
    → m' ≡ m
    → Inv (printing n x) q c l m
    → Inv (reading n) q c l' m'
prints {q} n x e f v = record {
  w = v.w;
  u = v.u;
  at1 = (v.at1.0, omega (arith, v.at1.1, e));
  at2 = subst (At q v.u) (sym f) v.at2;
  held1 = tt;
  held2 = v.held2;
  top = v.top;
  counted = v.counted;
  bottom = v.bottom;
}

-- What holds of the two threads, seen from the first and from the second.
abbrev pub Counted : Place → Place → Shared → Type 0
Counted p q sh = Inv p q sh.counter (lines tid1 sh.out) (lines tid2 sh.out)

move1-Counted :
    (p q : Place) (sh : Shared)
    → Counted p q sh
    → Moves (λ p' sh'. Counted p' q sh') (move tid1 p sh)
unfolding move lines
move1-Counted (reading zero) q sh v = tt
move1-Counted (reading (suc n)) q sh v = reads n v
move1-Counted (writing n x) q sh v = writes n x v
move1-Counted (printing n x) q sh v = prints n x (omega arith) (omega arith) v

move2-Counted :
    (p q : Place) (sh : Shared)
    → Counted p q sh
    → Moves (λ q' sh'. Counted p q' sh') (move tid2 q sh)
unfolding move lines
move2-Counted p (reading zero) sh v = tt
move2-Counted p (reading (suc n)) sh v = swap (reads n (swap v))
move2-Counted p (writing n x) sh v = swap (writes n x (swap v))
move2-Counted p (printing n x) sh v = swap (prints n x (omega arith) (omega arith) (swap v))

abbrev pub CountedIn : State → Type 0
CountedIn s = Counted s.one s.two s.sh

after1-Keeps :
    (s : State) (r : Option (Place × Shared))
    → Moves (λ p sh. Counted p s.two sh) r
    → Keeps CountedIn (after1 s r)
unfolding after1
after1-Keeps s none m = tt
after1-Keeps s (some (p, sh)) m = m

after2-Keeps :
    (s : State) (r : Option (Place × Shared))
    → Moves (λ q sh. Counted s.one q sh) r
    → Keeps CountedIn (after2 s r)
unfolding after2
after2-Keeps s none m = tt
after2-Keeps s (some (q, sh)) m = m

step-Keeps : (w : Thread) (s : State) → CountedIn s → Keeps CountedIn (step w s)
unfolding step
step-Keeps tid1 s v = after1-Keeps s (move tid1 s.one s.sh) (move1-Counted s.one s.two s.sh v)
step-Keeps tid2 s v = after2-Keeps s (move tid2 s.two s.sh) (move2-Counted s.one s.two s.sh v)

init-Counted : CountedIn init
unfolding lines
init-Counted = record {
  w = 0;
  u = 0;
  at1 = (refl, refl);
  at2 = (refl, refl);
  held1 = tt;
  held2 = tt;
  top = omega arith;
  counted = λ h. omega (arith, h);
  bottom = λ e f. omega (arith, e);
}

pub Reached-Counted : {s : State} → Reached s → CountedIn s
Reached-Counted = Reach-keeps step init CountedIn init-Counted step-Keeps
