-- ===== src/Relay/OpeningExamples.antt =====
-- A second client that comes late, and two that come at once.
use git.Base.{◌≡◌, ◌⊎◌, refl, Bool, true, false, List, [], ◌∷◌}
use git.Steps.{Run, at_start, extend, run_from}
use git.Relay.Opening.{
  first, second, writing2, reads1, reads2, writes2, open_next, Client, one, two, opened1, opened2,
  clients, step, start,
}
use git.Relay.Pairing.{Connected, Blocked, CanOpen, Reach-opens}

abbrev opens : (b : Bool) → List Client → Run step (start b)
unfolding run_from extend step opened1 opened2 open_next reads1 reads2 writes2
opens b schedule = run_from step (start b) schedule (at_start step (start b))

abbrev second_comes : List Client
second_comes = two ∷ two ∷ []

Reach-opens_example :
    Connected (opens true second_comes).last
    ⊎ (((true ≡ false) × Blocked (opens true second_comes).last)
        ⊎ CanOpen (opens true second_comes).last)
Reach-opens_example = Reach-opens true (opens true second_comes).reach

late_connects : (opens true (two ∷ two ∷ one ∷ two ∷ [])).last ≡ clients first second
unfolding run_from extend step opened1 opened2 open_next reads1 reads2 writes2
late_connects = refl

at_once_block :
    (opens false (one ∷ two ∷ one ∷ two ∷ one ∷ two ∷ [])).last ≡ clients writing2 writing2
unfolding run_from extend step opened1 opened2 open_next reads1 reads2 writes2
at_once_block = refl
