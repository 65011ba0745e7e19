-- ===== src/SemCount/Invariant.antt =====
-- The counts hold in every state that the threads reach.
use git.Base.{ℕ, refl, Option, none, some, arith}
use git.Steps.{Keeps, Moves, Reach-keeps}
use git.SemCount.Threads.{
  Thread, pid1, pid2, Making, Taking, Shared, produucer, consumer, State, after1, after2, step,
  Reached, init,
}
use git.SemCount.Counts.{products, consums, Counted}
use git.SemCount.Moves.{produucer-Counted, consumer-Counted}

abbrev pub CountedIn : State → Type 0
CountedIn s = Counted s.making s.taking s.shared

after1-Keeps :
    (s : State) (r : Option (Making × Shared))
    → Moves (λ p sh. Counted p s.taking sh) r
    → Keeps CountedIn (after1 s r)
unfolding after1
after1-Keeps s none m = tt
after1-Keeps s (some (p, sh)) m = m

after2-Keeps :
    (s : State) (r : Option (Taking × Shared))
    → Moves (λ c sh. Counted s.making c sh) r
    → Keeps CountedIn (after2 s r)
unfolding after2
after2-Keeps s none m = tt
after2-Keeps s (some (c, sh)) m = m

step-Keeps : (rand : ℕ → ℕ) (w : Thread) (s : State) → CountedIn s → Keeps CountedIn (step rand w s)
unfolding step
step-Keeps rand pid1 s c =
    after1-Keeps s (produucer rand s.making s.shared)
      (produucer-Counted rand s.making s.taking s.shared c)
step-Keeps rand pid2 s c =
    after2-Keeps s (consumer s.taking s.shared) (consumer-Counted s.making s.taking s.shared c)

init-Counted : CountedIn init
unfolding products consums
init-Counted = record {
  a = 0;
  r = 0;
  k = 0;
  w = 0;
  d = 0;
  makes = (omega arith, refl, refl);
  takes = (refl, refl);
  printed1 = refl;
  printed2 = refl;
  posts = refl;
  bounds = omega arith;
  held1 = tt;
  held2 = tt;
}

pub Reached-Counted : (rand : ℕ → ℕ) {s : State} → Reached rand s → CountedIn s
Reached-Counted rand = Reach-keeps (step rand) init CountedIn init-Counted (step-Keeps rand)
