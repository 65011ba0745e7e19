-- ===== src/SemCount/Moves.antt =====
-- Each step of the two threads keeps the counts.
use git.Base.{
  ℕ, zero, suc, ◌+◌, ◌≡◌, refl, Bool, true, false, if◌then◌else◌, ltb, Option, none, some, ◌==◌,
  arith,
}
use git.Base.Integers.{ℤ, increment, Within-mono, increment-Within, decrement-Within}
use git.Steps.{Moves}
use git.SemCount.Threads.{
  rounds, last_mark, Making, testing, raising, raised, filling, storing, reading, printing, posting,
  made, outside, Taking, waiting, naming, showing, checking, comparing, lowering, lowered, taken,
  overran, Shared, place, write_at, print_at, sem_wait, show_at, test_at, produucer, consumer,
}
use git.SemCount.Counts.{products, consums, HeldBy1-mono, HeldBy2-mono, Counted, goes1, goes2}

test-Counted :
    (b : Bool) (c : Taking) (sh : Shared)
    → ltb sh.i rounds ≡ b
    → Counted testing c sh
    → Counted (if b then raising else made) c sh
test-Counted true c sh e s = goes1 s raising (grind (arith, e), s.makes.1, s.makes.2) tt
test-Counted false c sh e s = goes1 s made (grind (arith, e, s.makes.0), s.makes.1, s.makes.2) tt

write_at-Counted :
    (rand : ℕ → ℕ) (o : Option ℕ) (v : ℤ) (c : Taking) (sh : Shared)
    → Counted (storing v) c sh
    → Moves (λ p' sh'. Counted p' c sh') (write_at rand o sh)
unfolding write_at
write_at-Counted rand none v c sh s = goes1 s outside s.makes tt
write_at-Counted rand (some k) v c sh s = goes1 s reading s.makes tt

print_at-Counted :
    (o : Option ℕ) (v : ℤ) (c : Taking) (sh : Shared)
    → Counted (printing v) c sh
    → Moves (λ p' sh'. Counted p' c sh') (print_at o sh)
unfolding print_at products consums
print_at-Counted none v c sh s = goes1 s outside s.makes tt
print_at-Counted (some k) v c sh s = record {
  a = 1;
  r = s.r;
  k = s.k;
  w = s.w;
  d = s.d;
  makes = (s.makes.0, refl, s.makes.2);
  takes = s.takes;
  printed1 = omega (arith, s.printed1, s.makes.1);
  printed2 = s.printed2;
  posts = s.posts;
  bounds = s.bounds;
  held1 = tt;
  held2 = s.held2;
}

pub produucer-Counted :
    (rand : ℕ → ℕ) (p : Making) (c : Taking) (sh : Shared)
    → Counted p c sh
    → Moves (λ p' sh'. Counted p' c sh') (produucer rand p sh)
unfolding produucer
produucer-Counted rand testing c sh s = test-Counted (ltb sh.i rounds) c sh refl s
produucer-Counted rand raising c sh s =
    goes1 s (raised sh.idx) s.makes (
      Within-mono s.k (sh.i + s.r) s.k sh.i sh.idx (omega arith) (omega (arith, s.makes.2))
        s.bounds)
produucer-Counted rand (raised v) c sh s = record {
  a = s.a;
  r = 1;
  k = s.k;
  w = s.w;
  d = s.d;
  makes = (s.makes.0, s.makes.1, refl);
  takes = s.takes;
  printed1 = s.printed1;
  printed2 = s.printed2;
  posts = s.posts;
  bounds =
      Within-mono s.k (suc sh.i) s.k (sh.i + 1) (increment v) (omega arith) (omega arith)
        (increment-Within s.k sh.i v s.held1);
  held1 = tt;
  held2 = HeldBy2-mono s.k (sh.i + s.r) (sh.i + 1) c (omega (arith, s.makes.2)) s.held2;
}
produucer-Counted rand filling c sh s = goes1 s (storing sh.idx) s.makes tt
produucer-Counted rand (storing v) c sh s = write_at-Counted rand (place v) v c sh s
produucer-Counted rand reading c sh s = goes1 s (printing sh.idx) s.makes tt
produucer-Counted rand (printing v) c sh s = print_at-Counted (place v) v c sh s
produucer-Counted rand posting c sh s = record {
  a = 0;
  r = 0;
  k = s.k;
  w = s.w;
  d = s.d;
  makes = (omega (arith, s.makes.0), refl, refl);
  takes = s.takes;
  printed1 = omega (arith, s.printed1, s.makes.1);
  printed2 = s.printed2;
  posts = omega (arith, s.posts);
  bounds =
      Within-mono s.k (sh.i + s.r) s.k (suc sh.i + 0) sh.idx (omega arith)
        (omega (arith, s.makes.2)) s.bounds;
  held1 = tt;
  held2 = HeldBy2-mono s.k (sh.i + s.r) (suc sh.i + 0) c (omega (arith, s.makes.2)) s.held2;
}
produucer-Counted rand made c sh s = tt
produucer-Counted rand outside c sh s = tt

sem_wait-Counted :
    (n : ℕ) (p : Making) (sh : Shared)
    → sh.mysem ≡ n
    → Counted p waiting sh
    → Moves (λ c' sh'. Counted p c' sh') (sem_wait n sh)
unfolding sem_wait
sem_wait-Counted zero p sh e s = tt
sem_wait-Counted (suc n) p sh e s = record {
  a = s.a;
  r = s.r;
  k = s.k;
  w = 1;
  d = 0;
  makes = s.makes;
  takes = (refl, refl);
  printed1 = s.printed1;
  printed2 = omega (arith, s.printed2, s.takes.1);
  posts = omega (arith, s.posts, s.takes.0, e);
  bounds = s.bounds;
  held1 = s.held1;
  held2 = tt;
}

show_at-Counted :
    (o : Option ℕ) (v : ℤ) (p : Making) (sh : Shared)
    → Counted p (showing v) sh
    → Moves (λ c' sh'. Counted p c' sh') (show_at o sh)
unfolding show_at products consums
show_at-Counted none v p sh s = goes2 s overran (s.takes.0, omega (arith, s.takes.1)) tt
show_at-Counted (some k) v p sh s = record {
  a = s.a;
  r = s.r;
  k = s.k;
  w = s.w;
  d = 1;
  makes = s.makes;
  takes = (s.takes.0, refl);
  printed1 = s.printed1;
  printed2 = omega (arith, s.printed2, s.takes.1);
  posts = s.posts;
  bounds = s.bounds;
  held1 = s.held1;
  held2 = tt;
}

tested-Counted :
    (b : Bool) (v : ℤ) (p : Making) (sh : Shared)
    → Counted p (comparing v) sh
    → Counted p (if b then taken else lowering) sh
tested-Counted true v p sh s = goes2 s taken s.takes tt
tested-Counted false v p sh s = goes2 s lowering s.takes tt

test_at-Counted :
    (o : Option ℕ) (v : ℤ) (p : Making) (sh : Shared)
    → Counted p (comparing v) sh
    → Moves (λ c' sh'. Counted p c' sh') (test_at o sh)
unfolding test_at
test_at-Counted none v p sh s = goes2 s overran (s.takes.0, omega (arith, s.takes.1)) tt
test_at-Counted (some k) v p sh s = tested-Counted (sh.buf k == last_mark) v p sh s

pub consumer-Counted :
    (p : Making) (c : Taking) (sh : Shared)
    → Counted p c sh
    → Moves (λ c' sh'. Counted p c' sh') (consumer c sh)
unfolding consumer
consumer-Counted p waiting sh s = sem_wait-Counted sh.mysem p sh refl s
consumer-Counted p naming sh s = goes2 s (showing sh.idx) s.takes tt
consumer-Counted p (showing v) sh s = show_at-Counted (place v) v p sh s
consumer-Counted p checking sh s = goes2 s (comparing sh.idx) s.takes tt
consumer-Counted p (comparing v) sh s = test_at-Counted (place v) v p sh s
consumer-Counted p lowering sh s = goes2 s (lowered sh.idx) s.takes s.bounds
consumer-Counted p (lowered v) sh s = record {
  a = s.a;
  r = s.r;
  k = suc s.k;
  w = 0;
  d = 0;
  makes = s.makes;
  takes = (refl, refl);
  printed1 = s.printed1;
  printed2 = omega (arith, s.printed2, s.takes.1);
  posts = omega (arith, s.posts, s.takes.0);
  bounds = decrement-Within s.k (sh.i + s.r) v s.held2;
  held1 = HeldBy1-mono s.k (suc s.k) sh.i p (omega arith) s.held1;
  held2 = tt;
}
consumer-Counted p taken sh s = tt
consumer-Counted p overran sh s = tt
