-- ===== src/SlotTable/Seats/Examples.antt =====
-- A client comes while another one leaves.
use git.Base.{◌≡◌, ◌≢◌, refl, some, List, [], ◌∷◌, get_elem?, length, replicate, arith, take}
use git.Steps.{Run, at_start, extend, run_from}
use git.SlotTable.Table.{slots, Table}
use git.SlotTable.Seats.{
  Arrival, broken, looked, accept_next, main_step, sought, search_step, put_first, behind,
  leaver_step, changed, Who, accepter, thread, State, step, begins, start_of,
}
use git.SlotTable.Seats.Kept.{Spared, SparedBy, Reached-kept}

-- The sockets 4 and 5 are seated; the client of 4 leaves, and 6 comes.
abbrev seated : Table
seated = 4 ∷ 5 ∷ replicate 48 0

abbrev six : Arrival
six = record { clifd = 6; index = 6 }

abbrev at_once : List Who
at_once = accepter ∷ accepter ∷ thread 0 ∷ accepter ∷ thread 0 ∷ accepter ∷ accepter ∷ accepter ∷ []

abbrev begun : State
unfolding begins
begun = start_of seated (six ∷ []) (4 ∷ [])

abbrev seats : Run step begun
unfolding run_from extend step main_step accept_next looked changed leaver_step put_first behind
    search_step sought begins
seats = run_from step begun at_once (at_start step begun)

Reached-kept_example :
    (get_elem? seats.last.table 1 ≡ some 5)
    × (length seats.last.table ≡ slots)
    × (seats.last.main ≢ broken)
unfolding Spared SparedBy begun seats
Reached-kept_example =
    Reached-kept seated (six ∷ []) (4 ∷ []) 1 5 (omega arith) refl refl (omega arith, tt)
      (omega arith, tt) seats.reach

six_seated : take 4 seats.last.table ≡ 0 ∷ 5 ∷ 6 ∷ 0 ∷ []
unfolding run_from extend step main_step accept_next looked changed leaver_step put_first behind
    search_step sought begins
six_seated = refl
