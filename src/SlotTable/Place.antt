-- ===== src/SlotTable/Place.antt =====
-- Where a new client goes.
use git.Base.{
  ℕ, zero, suc, ◌+◌, ◌≤◌, ◌<◌, ◌≡◌, refl, Option, none, some, [], ◌∷◌, ◌==◌, if◌then◌else◌,
  get_elem?, set, drop, length, arith,
}
use git.Base.Bytes.{Bytes}
use git.SlotTable.Table.{slots, Table, Placed, place_loop, place}

-- The first free slot of a table whose slots are numbered from `i`.
unfoldable pub free_from : ℕ → Table → Option ℕ
free_from i [] = none
free_from i (x ∷ t) = if x == 0 then some i else free_from (suc i) t

abbrev pub first_free : Table → Option ℕ
first_free = free_from 0

-- What a round does: with a free slot the client is put there and its thread is started; without,
-- nothing is done at all, no message and no close.
unfoldable pub outcome : ℕ → Table → Option ℕ → Placed
outcome fd t (some i) = record { table = set t i fd; acts = []; thread = some i }
outcome fd t none = record { table = t; acts = []; thread = none }

drop_get :
    (t : Table) (i : ℕ)
    → i < length t
    → (x : ℕ) × (get_elem? t i ≡ some x) × (drop i t ≡ x ∷ drop (suc i) t)
drop_get [] i h = elim h [ ]
drop_get (y ∷ t) zero h = (y, refl, refl)
drop_get (y ∷ t) (suc i) h = drop_get t i (omega arith)

drop-all : (t : Table) (i : ℕ) → length t ≤ i → drop i t ≡ []
drop-all [] zero h = refl
drop-all [] (suc i) h = refl
drop-all (y ∷ t) zero h = elim h [ ]
drop-all (y ∷ t) (suc i) h = drop-all t i (omega arith)

module _ (full : Bytes) (fd : ℕ) where
  place_loop-outcome :
      (n i : ℕ) (t : Table)
      → n + i ≡ slots
      → length t ≡ slots
      → place_loop full n i fd t [] ≡ some (outcome fd t (free_from i (drop i t)))
  unfolding place_loop outcome free_from
  place_loop-outcome zero i t e k = rw (drop-all t i (omega arith))
  place_loop-outcome (suc n) i t e k =
      let (x, at, d) = drop_get t i (omega arith) in
      ground (arith, at, d, place_loop-outcome n (suc i) t)

  -- For every table of 50 sockets, a round of the accept loop is `outcome`: the first free slot is
  -- taken, and on a full table the client is neither told nor closed, whatever the message for it.
  pub place-outcome :
      (t : Table) → length t ≡ slots → place full fd t ≡ some (outcome fd t (first_free t))
  unfolding place
  place-outcome t k = place_loop-outcome slots 0 t (omega arith) k
