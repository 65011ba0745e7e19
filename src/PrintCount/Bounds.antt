-- ===== src/PrintCount/Bounds.antt =====
-- How far the counter gets.
use git.Base.{ℕ, ◌≤◌, ◌≡◌, arith}
use mathlib.Core.Path.{subst}
use git.PrintCount.Threads.{rounds, tid1, tid2, Place, reading, State, Reached}
use git.PrintCount.Invariant.{lines, At, Inv, Reached-Counted}

Inv-total :
    (p q : Place) (c l m : ℕ)
    → p ≡ reading 0
    → q ≡ reading 0
    → Inv p q c l m
    → (2 ≤ c) × (c ≤ 20) × (l ≡ rounds) × (m ≡ rounds)
Inv-total p q c l m e f v =
    let a : At (reading 0) v.w l = subst (λ x. At x v.w l) e v.at1 in
    let b : At (reading 0) v.u m = subst (λ x. At x v.u m) f v.at2 in
    (
      v.bottom (omega (arith, a.0)) (omega (arith, b.0)),
      omega (arith, v.top, a.0, b.0),
      omega (arith, a.0, a.1),
      omega (arith, b.0, b.1),
    )

-- When both threads have ended, each has printed ten lines, and the counter is at least 2 and at most
-- 20, whatever the order of their steps.
pub Reached-total :
    {s : State}
    → Reached s
    → s.one ≡ reading 0
    → s.two ≡ reading 0
    → (2 ≤ s.sh.counter)
      × (s.sh.counter ≤ 20)
      × (lines tid1 s.sh.out ≡ rounds)
      × (lines tid2 s.sh.out ≡ rounds)
Reached-total {s} r e f =
    Inv-total s.one s.two s.sh.counter (lines tid1 s.sh.out) (lines tid2 s.sh.out) e f
      (Reached-Counted r)
