-- ===== src/SlotTable/Worker.antt =====
-- What the threads of t1s.c send, and what a departure leaves.
use git.Base.{
  ℕ, zero, suc, ◌+◌, ◌≤◌, ◌≡◌, refl, ap, ◌∙◌, Bool, true, false, Option, some, List, [], ◌∷◌, ◌++◌,
  ◌==◌, set, length, arith, ◌||◌,
}
use git.Base.Bytes.{Bytes, c_str}
use git.Io.{sent_to, sent_to-append}
use git.SlotTable.Table.{
  slots, Table, Placed, place, send_all, clear, Received, bytes, failed, worker_run,
}
use git.SlotTable.Place.{free_from, first_free, outcome, place-outcome}

-- Every message in the list is empty.
unfoldable all_empty : List Bytes → Bool
all_empty [] = true
all_empty ([] ∷ ms) = all_empty ms
all_empty ((x ∷ m) ∷ ms) = false

all_empty-append :
    (xs ys : List Bytes) → all_empty xs ≡ true → all_empty ys ≡ true → all_empty (xs ++ ys) ≡ true
unfolding all_empty
all_empty-append [] ys e f = f
all_empty-append ([] ∷ xs) ys e f = all_empty-append xs ys e f
all_empty-append ((x ∷ m) ∷ xs) ys e f = cc

send_all-empty : (fd : ℕ) (t : Table) → all_empty (sent_to fd (send_all t [])) ≡ true
unfolding all_empty sent_to send_all
send_all-empty fd [] = refl
send_all-empty fd (x ∷ t) = ground (arith, send_all-empty fd t)

-- A thread never passes on what its client says: whatever it receives, over any number of rounds and
-- whatever the other threads do to the table, every message that it sends to any socket is empty.
worker_run-empty :
    (index fd : ℕ) (rounds : List (Table × Received)) (t : Table)
    → all_empty (sent_to fd (worker_run index rounds t).acts) ≡ true
unfolding worker_run c_str
worker_run-empty index fd [] t = unfold sent_to all_empty in refl
worker_run-empty index fd ((now, failed) ∷ rest) t = send_all-empty fd now
worker_run-empty index fd ((now, bytes b) ∷ rest) t = rw (sent_to-append fd (send_all now [])) (
    all_empty-append (sent_to fd (send_all now [])) _ (send_all-empty fd now)
      (worker_run-empty index fd rest now))

unfoldable pub member : ℕ → Table → Bool
member fd [] = false
member fd (x ∷ t) = x == fd || member fd t

free_from-le : (k j : ℕ) (t : Table) → free_from k t ≡ some j → k ≤ j
unfolding free_from
free_from-le k j [] e = cc
free_from-le k j (x ∷ t) e = ground (arith, free_from-le (suc k) j t)

clear-set :
    (i j fd : ℕ) (t : Table)
    → free_from i t ≡ some (j + i)
    → member fd t ≡ false
    → clear fd (set t j fd) ≡ t
unfolding free_from member clear
clear-set i j fd [] e m = cc
clear-set i zero fd (x ∷ t) e m = ground (arith, free_from-le (suc i) i t)
clear-set i (suc j) fd (x ∷ t) e m = ground (arith, clear-set (suc i) j fd t)

-- A client that is put in the first free slot of a table without it, and then leaves, gives the table
-- back as it was.
clear-place :
    (full : Bytes) (j fd : ℕ) (t : Table)
    → length t ≡ slots
    → first_free t ≡ some j
    → member fd t ≡ false
    → (p : Placed) × (place full fd t ≡ some p) × (p.thread ≡ some j) × (clear fd p.table ≡ t)
unfolding outcome
clear-place full j fd t k e m = (
  record { table = set t j fd; acts = []; thread = some j },
  place-outcome full fd t k ∙ ap (λ o. some (outcome fd t o)) e,
  refl,
  clear-set 0 j fd t (e ∙ ap {B = Option ℕ} some (omega arith)) m,
)
