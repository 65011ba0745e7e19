-- ===== src/ClientTable/Leaving/Bounds.antt =====
-- What holds of the array and the count while several threads of t2s.c remove their clients.
use git.Base.{
  ℕ, zero, suc, ◌+◌, ◌≤◌, ◌<◌, ◌≡◌, refl, ap, ◌∙◌, true, false, Option, none, some, List, [], ◌∷◌,
  length, arith,
}
use mathlib.Core.Path.{subst}
use git.Steps.{Keeps, Moves, Reach-keeps}
use git.ClientTable.Server.{max_clients, Client, Server}
use git.ClientTable.Members.{IsValid}
use git.ClientTable.Leaving.{
  Place, testing, comparing, counting, copying, decreasing, storing, searched, faulted, Table, move,
  Thread, thread, State, put_first, behind, step_of, step, begins, start_of, Reached,
}
use git.ClientTable.Leaving.Access.{done, Fine, Ok, Moved, Fine-later, move-Moved}

-- How many of the threads have removed a client, and how many have made an access out of bounds.
unfoldable pub removals : List Thread → ℕ
removals [] = 0
removals (th ∷ ths) = done th.at + removals ths

abbrev fault : Place → ℕ
fault (testing i) = 0
fault (comparing i) = 0
fault (counting i) = 0
fault (copying i j) = 0
fault decreasing = 0
fault (storing v) = 0
fault (searched found) = 0
fault faulted = 1

unfoldable pub faults : List Thread → ℕ
faults [] = 0
faults (th ∷ ths) = fault th.at + faults ths

AllFine : ℕ → ℕ → List Thread → Type 0
AllFine c w [] = Unit {0}
AllFine c w (th ∷ ths) = Fine c w th.at × AllFine c w ths

record MovedAll (c w : ℕ) (ths : List Thread) (s : State) : Type 0 where
  more : ℕ
  later : w ≤ more
  rise : removals s.threads + w ≡ removals ths + more
  count : length s.threads ≡ length ths
  ok : Ok c more s.tab
  fine : AllFine c more s.threads

AllFine-later : (c w x : ℕ) (ths : List Thread) → w ≤ x → AllFine c w ths → AllFine c x ths
unfolding AllFine
AllFine-later c w x [] l f = tt
AllFine-later c w x (th ∷ ths) l f = (Fine-later c w x th.at l f.0, AllFine-later c w x ths l f.1)

done-one : (p : Place) → done p ≤ 1
done-one (testing i) = omega arith
done-one (comparing i) = omega arith
done-one (counting i) = omega arith
done-one (copying i j) = omega arith
done-one decreasing = omega arith
done-one (storing v) = omega arith
done-one (searched true) = omega arith
done-one (searched false) = omega arith
done-one faulted = omega arith

removals-length : (ths : List Thread) → removals ths ≤ length ths
unfolding removals
removals-length [] = omega arith
removals-length (th ∷ ths) = omega (arith, done-one th.at, removals-length ths)

module _ (c w : ℕ) where
  first-Moved :
      (cl : Client) (p : Place) (ths : List Thread) (r : Option (Place × Table))
      → AllFine c w ths
      → Moves (Moved c w p) r
      → Keeps (MovedAll c w (thread cl p ∷ ths)) (put_first cl ths r)
  unfolding put_first removals AllFine
  first-Moved cl p ths none f m = tt
  first-Moved cl p ths (some (p', t)) f m = record {
    more = m.more;
    later = m.later;
    rise = omega (arith, m.rise);
    count = refl;
    ok = m.ok;
    fine = (m.fine, AllFine-later c w m.more ths m.later f);
  }

  behind-Moved :
      (th : Thread) (ths : List Thread) (r : Option State)
      → Fine c w th.at
      → Keeps (MovedAll c w ths) r
      → Keeps (MovedAll c w (th ∷ ths)) (behind th r)
  unfolding behind removals AllFine
  behind-Moved th ths none f m = tt
  behind-Moved th ths (some s) f m = record {
    more = m.more;
    later = m.later;
    rise = omega (arith, m.rise);
    count = ap suc m.count;
    ok = m.ok;
    fine = (Fine-later c w m.more th.at m.later f, m.fine);
  }

  step_of-Moved :
      (k : ℕ) (ths : List Thread) (t : Table) (u : ℕ)
      → c ≤ max_clients
      → Ok c w t
      → AllFine c w ths
      → w ≡ u + removals ths
      → u + length ths ≤ c
      → Keeps (MovedAll c w ths) (step_of k ths t)
  unfolding step_of removals AllFine
  step_of-Moved k [] t u fits o f e l = tt
  step_of-Moved zero (th ∷ ths) t u fits o f e l =
      first-Moved th.cl th.at ths (move th.cl th.at t) f.1
        (move-Moved c w th.cl th.at t fits o f.0 (λ d. omega (arith, d, e, l, removals-length ths)))
  step_of-Moved (suc k) (th ∷ ths) t u fits o f e l = behind-Moved th ths (step_of k ths t) f.0 (
      step_of-Moved k ths t (u + done th.at) fits o f.1 (omega (arith, e))
        (omega (arith, l, done-one th.at)))

record IsKept (c n : ℕ) (s : State) : Type 0 where
  count : length s.threads ≡ n
  ok : Ok c (removals s.threads) s.tab
  fine : AllFine c (removals s.threads) s.threads

module _ (c n : ℕ) (fits : c ≤ max_clients) (few : n ≤ c) where
  MovedAll-IsKept :
      (s : State) (r : Option State)
      → length s.threads ≡ n
      → Keeps (MovedAll c (removals s.threads) s.threads) r
      → Keeps (IsKept c n) r
  MovedAll-IsKept s none e m = tt
  MovedAll-IsKept s (some s') e m =
      let same : m.more ≡ removals s'.threads = omega (arith, m.rise) in
      record {
        count = m.count ∙ e;
        ok = subst (λ w. Ok c w s'.tab) same m.ok;
        fine = subst (λ w. AllFine c w s'.threads) same m.fine;
      }

  step-IsKept : (k : ℕ) (s : State) → IsKept c n s → Keeps (IsKept c n) (step k s)
  unfolding step
  step-IsKept k s h = MovedAll-IsKept s (step_of k s.threads s.tab) h.count (
      step_of-Moved c (removals s.threads) k s.threads s.tab 0 fits h.ok h.fine (omega arith)
        (omega (arith, h.count, few)))

begins-count : (leavers : List Client) → length (begins leavers) ≡ length leavers
unfolding begins
begins-count [] = refl
begins-count (cl ∷ leavers) = ap suc (begins-count leavers)

begins-removals : (leavers : List Client) → removals (begins leavers) ≡ 0
unfolding begins removals
begins-removals [] = refl
begins-removals (cl ∷ leavers) = omega (arith, begins-removals leavers)

begins-Fine : (c w : ℕ) (leavers : List Client) → AllFine c w (begins leavers)
unfolding begins AllFine
begins-Fine c w [] = tt
begins-Fine c w (cl ∷ leavers) = (tt, begins-Fine c w leavers)

start-IsKept :
    (leavers : List Client) (s : Server)
    → IsValid s
    → IsKept s.cnt (length leavers) (start_of leavers s)
unfolding start_of
start-IsKept leavers s v =
    let at_first = begins-removals leavers in
    record {
      count = begins-count leavers;
      ok = record {
        whole = v.whole;
        low = omega arith;
        high = omega arith;
        below = λ h. omega (arith, h, at_first);
      };
      fine = begins-Fine s.cnt (removals (begins leavers)) leavers;
    }

fault-none : (c w : ℕ) (p : Place) → Fine c w p → fault p ≡ 0
fault-none c w (testing i) f = refl
fault-none c w (comparing i) f = refl
fault-none c w (counting i) f = refl
fault-none c w (copying i j) f = refl
fault-none c w decreasing f = refl
fault-none c w (storing v) f = refl
fault-none c w (searched found) f = refl
fault-none c w faulted f = elim f [ ]

faults-none : (c w : ℕ) (ths : List Thread) → AllFine c w ths → faults ths ≡ 0
unfolding AllFine faults
faults-none c w [] f = refl
faults-none c w (th ∷ ths) f = omega (arith, fault-none c w th.at f.0, faults-none c w ths f.1)

-- Threads of t2s.c, no more than there are clients, that search and remove at once, in any order of
-- their accesses: none is out of bounds, the array keeps its 100 places, and the count is below what it
-- was by at most the number of threads that have removed a client, and by one if there is any.
pub Reached-bounds :
    (leavers : List Client) (s : Server)
    → IsValid s
    → length leavers ≤ s.cnt
    → {t : State} → Reached leavers s t
    → (faults t.threads ≡ 0)
      × (length t.tab.client ≡ max_clients)
      × (s.cnt ≤ t.tab.cnt + removals t.threads)
      × (t.tab.cnt ≤ s.cnt)
      × (1 ≤ removals t.threads → t.tab.cnt < s.cnt)
Reached-bounds leavers s v few {t} r =
    let n = length leavers in
    let h =
      Reach-keeps step (start_of leavers s) (IsKept s.cnt n) (start-IsKept leavers s v)
        (step-IsKept s.cnt n v.fits few) r in
    (
      faults-none s.cnt (removals t.threads) t.threads h.fine,
      h.ok.whole,
      h.ok.low,
      h.ok.high,
      h.ok.below,
    )
