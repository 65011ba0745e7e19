-- ===== src/Steps.antt =====
-- Programs of several threads: a step function that says which thread moves, the states that steps
-- reach, and runs of a schedule.
use mathlib.Core.Option.{some-injective}
use git.Base.{◌≡◌, refl, sym, Bool, true, false, Option, none, some, List, [], ◌∷◌}

abbrev pub moved : {A : Type 0} → Option A → Bool
moved none = false
moved (some a) = true

-- The state after a step, if there is one, is in `P`.
abbrev pub Keeps : {S : Type 0} → (S → Type 0) → Option S → Type 0
Keeps P none = Unit {0}
Keeps P (some t) = P t

-- A thread's move, if it can make one, ends at a place and with shared variables that are in `P`.
abbrev pub Moves : {A B : Type 0} → (A → B → Type 0) → Option (A × B) → Type 0
Moves P none = Unit {0}
Moves P (some (a, b)) = P a b

Keeps-some : {S : Type 0} (P : S → Type 0) (r : Option S) {t : S} → Keeps P r → r ≡ some t → P t
Keeps-some P none k e = cc
Keeps-some P (some u) {t} k e = rw (some-injective t u (sym e)) k

module _ {S A : Type 0} (step : A → S → Option S) (start : S) where
  pub data Reach : S → Type 0 where
    begin : Reach start
    next : {s t : S} (a : A) → Reach s → step a s ≡ some t → Reach t

  -- What holds at the start and is kept by every step holds in every state that is reached.
  pub Reach-keeps :
      (P : S → Type 0)
      → P start
      → ((a : A) (s : S) → P s → Keeps P (step a s))
      → {s : S} → Reach s
      → P s
  Reach-keeps P p k begin = p
  Reach-keeps P p k (next {s} a r e) = Keeps-some P (step a s) (k a s (Reach-keeps P p k r)) e

  -- A state that is reached, and the one after a schedule; a thread that cannot move is passed over.
  pub record Run : Type 0 where
    pub last : S
    pub reach : Reach last

  abbrev pub at_start : Run
  at_start = record { last = start; reach = begin }

  unfoldable pub extend : (r : Run) (a : A) (o : Option S) → step a r.last ≡ o → Run
  extend r a none e = r
  extend r a (some t) e = record { last = t; reach = next a r.reach e }

  unfoldable pub run_from : List A → Run → Run
  run_from [] r = r
  run_from (a ∷ rest) r = run_from rest (extend r a (step a r.last) refl)
