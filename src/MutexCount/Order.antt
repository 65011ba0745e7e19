-- ===== src/MutexCount/Order.antt =====
-- One thread comes in first: what holds from then on, and that every move keeps it.
use git.Base.{◌≡◌, ◌⊎◌, inl, inr, refl, sym, ◌∙◌, none, some, List, [], ◌++◌}
use git.Base.Integers.{ℤ, pos}
use git.Steps.{Moves}
use git.MutexCount.Threads.{
  Thread, rounds, Place, entering, locking, testing, writing, printing, finished, Shared, move,
}
use git.MutexCount.Sections.{
  other, run, block, values, Before, Counted, In, Moves-mono, move-In, move-Before,
}

-- `w` is the thread that comes in first.
module _ (w : Thread) where
  -- What it leaves to the other.
  abbrev pub half_way : ℤ
  half_way = run w rounds (pos 0)

  abbrev pub half_shown : List (Thread × ℤ)
  half_shown = block w rounds (pos 0) ++ []

  pub data Inv (p q : Place) (sh : Shared) : Type 0 where
    unlocked :
        Before p → Before q → sh.mylock ≡ none → sh.g_var ≡ pos 0 → values sh.out ≡ [] → Inv p q sh
    first : In w (pos 0) [] p sh → Before q → sh.mylock ≡ some w → Inv p q sh
    half : p ≡ finished → Before q → sh.mylock ≡ none → Counted w (pos 0) [] rounds sh → Inv p q sh
    second :
        p ≡ finished
        → In (other w) half_way half_shown q sh
        → sh.mylock ≡ some (other w)
        → Inv p q sh
    both :
        p ≡ finished
        → q ≡ finished
        → sh.mylock ≡ none
        → Counted (other w) half_way half_shown rounds sh
        → Inv p q sh

  -- Nothing in a section depends on anything but the counter and the values printed.
  In-same :
      (base : ℤ) (old : List (Thread × ℤ)) (p : Place) (sh sh' : Shared)
      → In w base old p sh
      → sh'.g_var ≡ sh.g_var
      → values sh'.out ≡ values sh.out
      → In w base old p sh'
  In-same base old entering sh sh' i g v = elim i [ ]
  In-same base old locking sh sh' i g v = elim i [ ]
  In-same base old (testing n) sh sh' (k, e, c) g v =
      (k, e, record { count = g ∙ c.count; shown = v ∙ c.shown })
  In-same base old (writing n x) sh sh' (k, e, f, c) g v =
      (k, e, f ∙ sym g, record { count = g ∙ c.count; shown = v ∙ c.shown })
  In-same base old (printing n) sh sh' (k, e, c, d) g v = (k, e, g ∙ c, v ∙ d)
  In-same base old finished sh sh' i g v = elim i [ ]

  pub move-first :
      (p q : Place) (sh : Shared) → Inv p q sh → Moves (λ p' sh'. Inv p' q sh') (move w p sh)
  unfolding move
  move-first p q sh (unlocked b c l g v) =
      Moves-mono (move w p sh)
        (λ p' sh' m. elim m [
          | inl (b', l', g', v') ↦ unlocked b' c (l' ∙ l) g' v'
          | inr (e, i, l') ↦ first i c l'
        ])
        (move-Before w (pos 0) [] p sh b g v)
  move-first p q sh (first i c l) =
      Moves-mono (move w p sh)
        (λ p' sh' m. elim m [ inl (i', l') ↦ first i' c l' | inr (e, l', k) ↦ half e c l' k ])
        (move-In w (pos 0) [] p sh i l)
  move-first p q sh (half e c l k) = rw e tt
  move-first p q sh (second e i l) = rw e tt
  move-first p q sh (both e f l k) = rw e tt

module _ (w : Thread) where
  pub move-other :
      (p q : Place) (sh : Shared)
      → Inv w p q sh
      → Moves (λ q' sh'. Inv w p q' sh' ⊎ Inv (other w) q' p sh') (move (other w) q sh)
  unfolding move
  move-other p q sh (unlocked b c l g v) =
      Moves-mono (move (other w) q sh)
        (λ q' sh' m. elim m [
          | inl (c', l', g', v') ↦ inl (unlocked b c' (l' ∙ l) g' v')
          | inr (e, i, l') ↦ inr (first i b l')
        ])
        (move-Before (other w) (pos 0) [] q sh c g v)
  move-other p q sh (first i c l) =
      Moves-mono (move (other w) q sh)
        (λ q' sh' m. elim m [
          | inl (c', l', g', v') ↦ inl (first (In-same w (pos 0) [] p sh sh' i g' v') c' (l' ∙ l))
          | inr (e, j, l') ↦ absurd (cc (e, l))
        ])
        (move-Before (other w) sh.g_var (values sh.out) q sh c refl refl)
  move-other p q sh (half e c l k) =
      Moves-mono (move (other w) q sh)
        (λ q' sh' m. elim m [
          | inl (c', l', g', v') ↦ inl (half e c' (l' ∙ l) (record { count = g'; shown = v' }))
          | inr (f, i, l') ↦ inl (second e i l')
        ])
        (move-Before (other w) (half_way w) (half_shown w) q sh c k.count k.shown)
  move-other p q sh (second e i l) =
      Moves-mono (move (other w) q sh)
        (λ q' sh' m. elim m [
          | inl (i', l') ↦ inl (second e i' l')
          | inr (f, l', k) ↦ inl (both e f l' k)
        ])
        (move-In (other w) (half_way w) (half_shown w) q sh i l)
  move-other p q sh (both e f l k) = rw f tt
