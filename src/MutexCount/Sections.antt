-- ===== src/MutexCount/Sections.antt =====
-- What holds while a thread is in its critical section, and how a move changes it.
use git.Base.{
  ℕ, zero, suc, ◌+◌, ◌≡◌, ◌⊎◌, inl, inr, refl, ap, ◌∙◌, Option, none, some, List, [], ◌∷◌, ◌++◌,
  arith,
}
use git.Base.Integers.{ℤ}
use git.Steps.{Moves}
use git.MutexCount.Threads.{
  Thread, th1, th2, change, rounds, Place, entering, locking, testing, writing, printing, finished,
  Line, entered, value, Shared, lock, move,
}

abbrev pub other : Thread → Thread
other th1 = th2
other th2 = th1

-- `g_var` after `k` rounds of a thread.
unfoldable pub run : Thread → ℕ → ℤ → ℤ
run w zero g = g
run w (suc k) g = change w (run w k g)

-- What those rounds print, the latest first.
unfoldable pub block : Thread → ℕ → ℤ → List (Thread × ℤ)
block w zero g = []
block w (suc k) g = (w, run w (suc k) g) ∷ block w k g

-- The values printed, without the lines of arrival.
unfoldable pub values : List Line → List (Thread × ℤ)
values [] = []
values (entered w ∷ out) = values out
values (value w g ∷ out) = (w, g) ∷ values out

-- Before its critical section.
abbrev pub Before : Place → Type 0
Before entering = Unit {0}
Before locking = Unit {0}
Before (testing n) = ⊥
Before (writing n v) = ⊥
Before (printing n) = ⊥
Before finished = ⊥

pub Moves-mono :
    {P Q : Place → Shared → Type 0} (r : Option (Place × Shared))
    → ((p : Place) (sh : Shared) → P p sh → Q p sh)
    → Moves P r
    → Moves Q r
Moves-mono none f m = tt
Moves-mono (some (p, sh)) f m = f p sh m

module _ (w : Thread) (base : ℤ) (old : List (Thread × ℤ)) where
  -- `k` rounds of `w` are done since it came in, with `base` and `old` there.
  pub record Counted (k : ℕ) (sh : Shared) : Type 0 where
    pub count : sh.g_var ≡ run w k base
    pub shown : values sh.out ≡ block w k base ++ old

  -- In its critical section.
  abbrev pub In : Place → Shared → Type 0
  In entering sh = ⊥
  In locking sh = ⊥
  In (testing n) sh = (k : ℕ) × (k + n ≡ rounds) × Counted k sh
  In (writing n v) sh = (k : ℕ) × (k + suc n ≡ rounds) × (v ≡ sh.g_var) × Counted k sh
  In (printing n) sh =
      (k : ℕ) × (k + suc n ≡ rounds)
      × (sh.g_var ≡ run w (suc k) base)
      × (values sh.out ≡ block w k base ++ old)
  In finished sh = ⊥

  -- A thread in its section stays there with the lock, or leaves with all its rounds done.
  abbrev pub Goes : Place → Shared → Type 0
  Goes p sh =
      (In p sh × (sh.mylock ≡ some w)) ⊎ ((p ≡ finished) × (sh.mylock ≡ none) × Counted rounds sh)

  pub move-In : (p : Place) (sh : Shared) → In p sh → sh.mylock ≡ some w → Moves Goes (move w p sh)
  unfolding move run block values
  move-In entering sh i l = elim i [ ]
  move-In locking sh i l = elim i [ ]
  move-In (testing zero) sh (k, e, c) l =
      let all : k ≡ rounds = omega (arith, e) in
      inr (
        refl,
        refl,
        record {
          count = c.count ∙ ap (λ m. run w m base) all;
          shown = c.shown ∙ ap (λ m. block w m base ++ old) all;
        },
      )
  move-In (testing (suc n)) sh (k, e, c) l = inl ((k, e, refl, c), l)
  move-In (writing n v) sh (k, e, f, c) l = inl ((k, e, ap (change w) (f ∙ c.count), c.shown), l)
  move-In (printing n) sh (k, e, g, v) l =
      inl ((suc k, omega (arith, e), record { count = g; shown = rw (g, v) }), l)
  move-In finished sh i l = elim i [ ]

  -- A thread before its section stays before it and changes neither lock nor counter nor values, or
  -- takes the free lock and comes in.
  abbrev pub Enters : Option Thread → Place → Shared → Type 0
  Enters lk p sh =
      (Before p × (sh.mylock ≡ lk) × (sh.g_var ≡ base) × (values sh.out ≡ old))
      ⊎ ((lk ≡ none) × In p sh × (sh.mylock ≡ some w))

  lock-Enters :
      (lk : Option Thread) (sh : Shared)
      → sh.g_var ≡ base
      → values sh.out ≡ old
      → Moves (Enters lk) (lock w lk sh)
  unfolding lock run block
  lock-Enters none sh g v = inr (refl, (0, omega arith, record { count = g; shown = v }), refl)
  lock-Enters (some t) sh g v = tt

  pub move-Before :
      (p : Place) (sh : Shared)
      → Before p
      → sh.g_var ≡ base
      → values sh.out ≡ old
      → Moves (Enters sh.mylock) (move w p sh)
  unfolding move values
  move-Before entering sh b g v = inl (tt, refl, g, v)
  move-Before locking sh b g v = lock-Enters sh.mylock sh g v
  move-Before (testing n) sh b g v = elim b [ ]
  move-Before (writing n x) sh b g v = elim b [ ]
  move-Before (printing n) sh b g v = elim b [ ]
  move-Before finished sh b g v = elim b [ ]
