-- ===== src/SlotTable/Examples.antt =====
-- The theorems of SlotTable at concrete tables.
use git.Base.{◌≡◌, refl, none, some, [], ◌∷◌, replicate}
use git.Base.Bytes.{codes}
use git.SlotTable.Table.{slots, Table, place, place_loop, s_round, t1s_round, bytes}
use git.SlotTable.Place.{first_free, outcome, place-outcome}
use git.SlotTable.Stale.{Round}

abbrev full_table : Table
full_table = replicate slots 7

place-outcome_example :
    place (codes "full") 9 full_table ≡ some (outcome 9 full_table (first_free full_table))
place-outcome_example = place-outcome (codes "full") 9 full_table refl

s_round_full :
    s_round (some 9) full_table
    ≡ some (some (record { table = full_table; acts = []; thread = none }))
unfolding s_round place place_loop
s_round_full = refl

t1s_round_closed : t1s_round [] none full_table ≡ none
unfolding t1s_round
t1s_round_closed = refl

abbrev noisy : Round
noisy = record {
  table = 4 ∷ 5 ∷ 0 ∷ [];
  clientfd = 5;
  i = 1;
  buf1 = some (codes "x");
  buf2 = some (codes "junk!");
  first = bytes (codes "hi");
  second = bytes (codes "so");
}
