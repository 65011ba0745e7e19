-- ===== src/SemCount/Outcome.antt =====
-- What every order of the steps comes to.
use git.Base.{ℕ, zero, suc, ◌+◌, ◌≤◌, ◌≡◌, ◌⊎◌, inl, inr, refl, true, Option, none, some, arith}
use mathlib.Core.Path.{subst}
use git.Base.Integers.{Within, Within-mono}
use git.SemCount.Threads.{
  rounds, pid1, pid2, Making, testing, raising, raised, filling, storing, reading, printing,
  posting, made, outside, Taking, waiting, naming, showing, checking, comparing, lowering, lowered,
  taken, overran, Shared, place, write_at, print_at, sem_wait, show_at, test_at, produucer,
  consumer, State, after1, after2, step, Reached,
}
use git.SemCount.Counts.{products, consums, Makes, Takes, Counted}
use git.Steps.{moved}
use git.SemCount.Invariant.{Reached-Counted}

after1-moved :
    (s : State) (r : Option (Making × Shared)) → moved r ≡ true → moved (after1 s r) ≡ true
unfolding after1
after1-moved s none e = e
after1-moved s (some (p, sh)) e = refl

after2-moved :
    (s : State) (r : Option (Taking × Shared)) → moved r ≡ true → moved (after2 s r) ≡ true
unfolding after2
after2-moved s none e = e
after2-moved s (some (c, sh)) e = refl

write_at-moved : (rand : ℕ → ℕ) (o : Option ℕ) (sh : Shared) → moved (write_at rand o sh) ≡ true
unfolding write_at
write_at-moved rand none sh = refl
write_at-moved rand (some k) sh = refl

print_at-moved : (o : Option ℕ) (sh : Shared) → moved (print_at o sh) ≡ true
unfolding print_at
print_at-moved none sh = refl
print_at-moved (some k) sh = refl

show_at-moved : (o : Option ℕ) (sh : Shared) → moved (show_at o sh) ≡ true
unfolding show_at
show_at-moved none sh = refl
show_at-moved (some k) sh = refl

test_at-moved : (o : Option ℕ) (sh : Shared) → moved (test_at o sh) ≡ true
unfolding test_at
test_at-moved none sh = refl
test_at-moved (some k) sh = refl

produucer-moved :
    (rand : ℕ → ℕ) (p : Making) (sh : Shared)
    → (moved (produucer rand p sh) ≡ true) ⊎ ((p ≡ made) ⊎ (p ≡ outside))
unfolding produucer
produucer-moved rand testing sh = inl refl
produucer-moved rand raising sh = inl refl
produucer-moved rand (raised v) sh = inl refl
produucer-moved rand filling sh = inl refl
produucer-moved rand (storing v) sh = inl (write_at-moved rand (place v) sh)
produucer-moved rand reading sh = inl refl
produucer-moved rand (printing v) sh = inl (print_at-moved (place v) sh)
produucer-moved rand posting sh = inl refl
produucer-moved rand made sh = inr (inl refl)
produucer-moved rand outside sh = inr (inr refl)

sem_wait-moved : (n : ℕ) (sh : Shared) → (moved (sem_wait n sh) ≡ true) ⊎ (n ≡ 0)
unfolding sem_wait
sem_wait-moved zero sh = inr refl
sem_wait-moved (suc n) sh = inl refl

-- The consumer waits with the semaphore at 0, has ended, or has left the buffer.
abbrev Rests : Taking → ℕ → Type 0
Rests c n = ((c ≡ waiting) × (n ≡ 0)) ⊎ ((c ≡ taken) ⊎ (c ≡ overran))

consumer-moved : (c : Taking) (sh : Shared) → (moved (consumer c sh) ≡ true) ⊎ Rests c sh.mysem
unfolding consumer
consumer-moved waiting sh = elim (sem_wait-moved sh.mysem sh) [
  | inl m ↦ inl m
  | inr z ↦ inr (inl (refl, z))
]
consumer-moved naming sh = inl refl
consumer-moved (showing v) sh = inl (show_at-moved (place v) sh)
consumer-moved checking sh = inl refl
consumer-moved (comparing v) sh = inl (test_at-moved (place v) sh)
consumer-moved lowering sh = inl refl
consumer-moved (lowered v) sh = inl refl
consumer-moved taken sh = inr (inr (inl refl))
consumer-moved overran sh = inr (inr (inr refl))

-- Both threads are at rest: ten numbers have been printed as products; the consumer has printed as
-- many and waits for ever, or has ended, and the semaphore holds the rest.
pub record Over (s : State) : Type 0 where
  pub all_made : s.making ≡ made
  pub all_shown : products s.shared.out ≡ rounds
  pub rests :
      ((s.taking ≡ waiting) × (s.shared.mysem ≡ 0) × (consums s.shared.out ≡ rounds))
      ⊎ ((s.taking ≡ taken) × (s.shared.mysem + consums s.shared.out ≡ rounds))

Makes-bounds : (p : Making) (i a r : ℕ) → Makes p i a r → (i + a ≤ rounds) × (i + r ≤ rounds)
Makes-bounds testing i a r (h, x, y) = (omega (arith, h, x), omega (arith, h, y))
Makes-bounds raising i a r (h, x, y) = (omega (arith, h, x), omega (arith, h, y))
Makes-bounds (raised v) i a r (h, x, y) = (omega (arith, h, x), omega (arith, h, y))
Makes-bounds filling i a r (h, x, y) = (omega (arith, h, x), omega (arith, h, y))
Makes-bounds (storing v) i a r (h, x, y) = (omega (arith, h, x), omega (arith, h, y))
Makes-bounds reading i a r (h, x, y) = (omega (arith, h, x), omega (arith, h, y))
Makes-bounds (printing v) i a r (h, x, y) = (omega (arith, h, x), omega (arith, h, y))
Makes-bounds posting i a r (h, x, y) = (omega (arith, h, x), omega (arith, h, y))
Makes-bounds made i a r (h, x, y) = (omega (arith, h, x), omega (arith, h, y))
Makes-bounds outside i a r (h, x, y) = (omega (arith, h, x), omega (arith, h, y))

Takes-bounds : (c : Taking) (w d : ℕ) → Takes c w d → d ≤ w
Takes-bounds waiting w d (h, x) = omega (arith, h, x)
Takes-bounds naming w d (h, x) = omega (arith, h, x)
Takes-bounds (showing v) w d (h, x) = omega (arith, h, x)
Takes-bounds checking w d (h, x) = omega (arith, h, x)
Takes-bounds (comparing v) w d (h, x) = omega (arith, h, x)
Takes-bounds lowering w d (h, x) = omega (arith, h, x)
Takes-bounds (lowered v) w d (h, x) = omega (arith, h, x)
Takes-bounds taken w d (h, x) = omega (arith, h, x)
Takes-bounds overran w d (h, x) = omega (arith, h, x)

rested :
    (c : Taking) (sh : Shared)
    → Counted made c sh
    → Rests c sh.mysem
    → Over (record { making = made; taking = c; shared = sh }) ⊎ (c ≡ overran)
rested c sh s (inr (inr o)) = inr o
rested c sh s (inl (e, z)) =
    let t : Takes waiting s.w s.d = subst (λ x. Takes x s.w s.d) e s.takes in
    inl (record {
      all_made = refl;
      all_shown = omega (arith, s.printed1, s.makes.0, s.makes.1);
      rests = inl (e, z, omega (arith, s.printed2, s.posts, s.makes.0, t.0, t.1, z));
    })
rested c sh s (inr (inl e)) =
    let t : Takes taken s.w s.d = subst (λ x. Takes x s.w s.d) e s.takes in
    inl (record {
      all_made = refl;
      all_shown = omega (arith, s.printed1, s.makes.0, s.makes.1);
      rests = inr (e, omega (arith, s.printed2, s.posts, s.makes.0, t.0, t.1));
    })

rested_at :
    (p : Making) (c : Taking) (sh : Shared)
    → p ≡ made
    → Counted p c sh
    → Rests c sh.mysem
    → Over (record { making = p; taking = c; shared = sh }) ⊎ (c ≡ overran)
rested_at p c sh e s r = rw e (rested c sh (subst (λ x. Counted x c sh) e s) r)

-- In every state that the threads reach, in any order of their steps: one of them can make a step, or
-- one has left the buffer, or the producer has ended after ten lines and the consumer has ended, or
-- waits for ever after ten lines of its own.
pub Reach-ends :
    (rand : ℕ → ℕ) {s : State}
    → Reached rand s
    → Over s
      ⊎ (((s.making ≡ outside) ⊎ (s.taking ≡ overran))
          ⊎ ((moved (step rand pid1 s) ≡ true) ⊎ (moved (step rand pid2 s) ≡ true)))
unfolding step
Reach-ends rand {s} r = elim (produucer-moved rand s.making s.shared) [
  | inl m ↦ inr (inr (inl (after1-moved s (produucer rand s.making s.shared) m)))
  | inr (inr o) ↦ inr (inl (inl o))
  | inr (inl e) ↦ elim (consumer-moved s.taking s.shared) [
    | inl m ↦ inr (inr (inr (after2-moved s (consumer s.taking s.shared) m)))
    | inr h ↦ elim (rested_at s.making s.taking s.shared e (Reached-Counted rand r) h) [
      | inl o ↦ inl o
      | inr o ↦ inr (inl (inr o))
    ]
  ]
]

-- In every state that the threads reach `idx` is between -10 and 10, the posts not yet waited for and
-- the lines of the consumer together are no more than the lines of the producer, and those at most
-- ten.
Reach-bounds :
    (rand : ℕ → ℕ) {s : State}
    → Reached rand s
    → Within rounds rounds s.shared.idx
      × (s.shared.mysem + consums s.shared.out ≤ products s.shared.out)
      × (products s.shared.out ≤ rounds)
Reach-bounds rand {s} r =
    let c = Reached-Counted rand r in
    let (shown, raised_to) = Makes-bounds s.making s.shared.i c.a c.r c.makes in
    let fits = Takes-bounds s.taking c.w c.d c.takes in
    (
      Within-mono c.k (s.shared.i + c.r) rounds rounds s.shared.idx (omega (arith, shown, c.posts))
          raised_to c.bounds,
      omega (arith, c.printed1, c.printed2, c.posts, fits),
      omega (arith, c.printed1, shown),
    )
