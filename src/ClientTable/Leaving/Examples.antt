-- ===== src/ClientTable/Leaving/Examples.antt =====
-- Two of three clients leave at once: the third is then twice in the array.
use git.Base.{
  ◌≡◌, refl, Bool, some, List, [], ◌∷◌, ◌+◌, ◌≤◌, ◌<◌, ℕ, arith, take, length, replicate,
}
use git.Base.Bytes.{codes}
use git.Steps.{Run, at_start, extend, run_from}
use git.ClientTable.Server.{max_clients, Client, Server, remove_loop}
use git.ClientTable.Members.{IsValid}
use git.ClientTable.Leaving.{
  testing, searched, compared, copied, less_one, move, put_first, behind, step_of, step, begins,
  start_of, of_server, moves,
}
use git.ClientTable.Leaving.Bounds.{removals, faults, Reached-bounds}
use git.ClientTable.Leaving.Alone.{alone-remove_loop}

abbrev ann : Client
ann = record { cfd = 4; name = codes "ann" }

abbrev bob : Client
bob = record { cfd = 5; name = codes "bob" }

abbrev eve : Client
eve = record { cfd = 6; name = codes "eve" }

abbrev three : Server
three = record {
  client = ann ∷ bob ∷ eve ∷ replicate 97 (record { cfd = 0; name = [] });
  cnt = 3;
  sent = [];
  closed = [];
}

three-IsValid : IsValid three
three-IsValid = record { whole = refl; fits = omega arith }

abbrev leavers : List Client
leavers = ann ∷ bob ∷ []

-- ann's thread up to the read of `cnt` in --cnt, all of bob's, and the end of ann's.
abbrev order : List ℕ
order = 0 ∷ 0 ∷ 0 ∷ 0 ∷ 0 ∷ 1 ∷ 1 ∷ 1 ∷ 1 ∷ 1 ∷ 1 ∷ 1 ∷ 1 ∷ 0 ∷ []

abbrev both_leave : Run step (start_of leavers three)
unfolding run_from extend step step_of put_first behind move compared copied less_one start_of
    begins
both_leave = run_from step (start_of leavers three) order (at_start step (start_of leavers three))

Reached-bounds_example :
    (faults both_leave.last.threads ≡ 0)
    × (length both_leave.last.tab.client ≡ max_clients)
    × (3 ≤ both_leave.last.tab.cnt + removals both_leave.last.threads)
    × (both_leave.last.tab.cnt ≤ 3)
    × (1 ≤ removals both_leave.last.threads → both_leave.last.tab.cnt < 3)
Reached-bounds_example = Reached-bounds leavers three three-IsValid (omega arith) both_leave.reach

eve_twice :
    (both_leave.last.tab.cnt ≡ 2)
    × (removals both_leave.last.threads ≡ 2)
    × (take 2 both_leave.last.tab.client ≡ eve ∷ eve ∷ [])
unfolding run_from extend step step_of put_first behind move compared copied less_one start_of
    begins removals
eve_twice = (refl, refl, refl)

alone-remove_loop_example :
    (found : Bool) × (s' : Server) × (remove_loop 3 0 bob three ≡ some (found, s'))
    × ((n : ℕ) × (moves n bob (testing 0) (of_server three) ≡ some (searched found, of_server s')))
alone-remove_loop_example = alone-remove_loop bob three three-IsValid
