-- ===== src/SlotTable/Seats.antt =====
-- The accept loop of t1s.c and the threads that clear their slots at once, one access to `clifd_p` at a
-- time. There is no lock in the file.
mod Kept
mod Examples
use git.Base.{
  ℕ, zero, suc, Bool, true, false, Option, none, some, List, [], ◌∷◌, ◌==◌, if◌then◌else◌,
  get_elem?, set, ltb,
}
use git.Steps.{Reach}
use git.SlotTable.Table.{slots, Table}

-- What `accept` gives, and what the thread that is started for it reads of `&clifd`, which by then may
-- be the socket of a later client.
pub record Arrival : Type 0 where
  pub clifd : ℕ
  pub index : ℕ

-- Where `main` stands.
pub data Main : Type 0 where
  accepting : Main
  looking : Arrival → ℕ → Main  -- i < 50, clifd_p[i] == 0
  taking : Arrival → ℕ → Main  -- clifd_p[i] = clifd
  broken : Main  -- after an access out of bounds

-- Where a thread whose `recv` has failed stands.
pub data Search : Type 0 where
  seeking : ℕ → Search  -- i < 50, clifd_p[i] == index
  emptying : ℕ → Search  -- clifd_p[i] = 0
  gone : Search
  lost : Search  -- after an access out of bounds

pub record Leaver : Type 0 where
  pub index : ℕ
  pub at : Search

abbrev leaver : ℕ → Search → Leaver
leaver index at = record { index = index; at = at }

pub record State : Type 0 where
  pub table : Table
  pub arrivals : List Arrival
  pub main : Main
  pub leavers : List Leaver

unfoldable pub looked : Arrival → ℕ → Option ℕ → Main
looked a i none = broken
looked a i (some x) = if x == 0 then taking a i else looking a (suc i)

unfoldable pub accept_next : State → List Arrival → Option State
accept_next s [] = none
accept_next s (a ∷ rest) = some (record s { arrivals = rest; main = looking a 0 })

-- The next access of `main`, for which `50 == i` is never true inside the loop. A new client's thread may
-- leave at once.
unfoldable pub main_step : State → Main → Option State
main_step s accepting = accept_next s s.arrivals
main_step s (looking a i) =
    some (record s { main = if ltb i slots then looked a i (get_elem? s.table i) else accepting })
main_step s (taking a i) = some (record s {
  table = set s.table i a.clifd;
  main = accepting;
  leavers = leaver a.index (seeking 0) ∷ s.leavers;
})
main_step s broken = none

unfoldable pub sought : ℕ → ℕ → Option ℕ → Search
sought index i none = lost
sought index i (some x) = if x == index then emptying i else seeking (suc i)

-- The next access of a thread.
unfoldable pub search_step : ℕ → Search → Table → Option (Search × Table)
search_step index (seeking i) t =
    some (if ltb i slots then sought index i (get_elem? t i) else gone, t)
search_step index (emptying i) t = some (gone, set t i 0)
search_step index gone t = none
search_step index lost t = none

unfoldable pub put_first : ℕ → List Leaver → Option (Search × Table) → Option (List Leaver × Table)
put_first index ls none = none
put_first index ls (some (p, t)) = some (leaver index p ∷ ls, t)

unfoldable pub behind : Leaver → Option (List Leaver × Table) → Option (List Leaver × Table)
behind l none = none
behind l (some (ls, t)) = some (l ∷ ls, t)

unfoldable pub leaver_step : ℕ → List Leaver → Table → Option (List Leaver × Table)
leaver_step k [] t = none
leaver_step zero (l ∷ ls) t = put_first l.index ls (search_step l.index l.at t)
leaver_step (suc k) (l ∷ ls) t = behind l (leaver_step k ls t)

unfoldable pub changed : State → Option (List Leaver × Table) → Option State
changed s none = none
changed s (some (ls, t)) = some (record s { leavers = ls; table = t })

pub data Who : Type 0 where
  accepter : Who
  thread : ℕ → Who

unfoldable pub step : Who → State → Option State
step accepter s = main_step s s.main
step (thread k) s = changed s (leaver_step k s.leavers s.table)

unfoldable pub begins : List ℕ → List Leaver
begins [] = []
begins (index ∷ rest) = leaver index (seeking 0) ∷ begins rest

-- With a table, clients to come, and threads whose `recv` fails.
abbrev pub start_of : Table → List Arrival → List ℕ → State
start_of t arrivals leaving = record {
  table = t;
  arrivals = arrivals;
  main = accepting;
  leavers = begins leaving;
}
