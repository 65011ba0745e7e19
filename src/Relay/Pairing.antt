-- ===== src/Relay/Pairing.antt =====
-- Two clients of 123.c find each other, or wait for ever.
use git.Base.{◌≡◌, ◌⊎◌, inl, inr, refl, Bool, true, false, Option, none, some}
use git.Steps.{Reach, Reach-keeps, Keeps, moved}
use git.Relay.Opening.{
  Place, probing, reading1, writing2, writing1, reading2, first, second, reads1, reads2, writes2,
  open_next, Client, one, two, Clients, opened1, opened2, step, start,
}

-- Where a client and one that has come as far or further may stand; the flag tells that one of them
-- has begun when the other waited.
data Pair : Bool → Place → Place → Type 0 where
  both_probe : Pair false probing probing
  one_probes : Pair false probing reading1
  both_read : Pair false reading1 reading1
  one_reads : Pair false reading1 writing2
  both_wait : Pair false writing2 writing2
  late : {b : Bool} → Pair b probing writing2
  found : {b : Bool} → Pair b writing1 writing2
  meets : {b : Bool} → Pair b reading2 writing2
  meets_first : {b : Bool} → Pair b reading2 first
  meets_second : {b : Bool} → Pair b second writing2
  met : {b : Bool} → Pair b second first

abbrev Paired : Bool → Place → Place → Type 0
Paired b p q = Pair b p q ⊎ Pair b q p

-- The client that is behind goes on, and the one that is ahead.
behind : {b : Bool} {p q : Place} → Pair b p q → Keeps (λ p'. Paired b p' q) (open_next p q)
unfolding open_next reads1 reads2 writes2
behind both_probe = inr one_probes
behind one_probes = inl both_read
behind both_read = inr one_reads
behind one_reads = inl both_wait
behind both_wait = tt
behind late = inl found
behind found = inl meets
behind meets = inl meets_second
behind meets_first = inl met
behind meets_second = tt
behind met = tt

ahead : {b : Bool} {p q : Place} → Pair b p q → Keeps (λ q'. Paired b p q') (open_next q p)
unfolding open_next reads1 reads2 writes2
ahead both_probe = inl one_probes
ahead one_probes = inl late
ahead both_read = inl one_reads
ahead one_reads = tt
ahead both_wait = tt
ahead late = tt
ahead found = tt
ahead meets = inl meets_first
ahead meets_first = tt
ahead meets_second = inl met
ahead met = tt

-- Each writes what the other reads; or both have become the reader of fifo1, and wait for one of fifo2.
abbrev pub Connected : Clients → Type 0
Connected s =
    ((s.at_one ≡ first) × (s.at_two ≡ second)) ⊎ ((s.at_one ≡ second) × (s.at_two ≡ first))

abbrev pub Blocked : Clients → Type 0
Blocked s = (s.at_one ≡ writing2) × (s.at_two ≡ writing2)

abbrev pub CanOpen : Clients → Type 0
CanOpen s = (moved (step one s) ≡ true) ⊎ (moved (step two s) ≡ true)

abbrev PairedIn : Bool → Clients → Type 0
PairedIn b s = Paired b s.at_one s.at_two

Paired-sym : {b : Bool} {p q : Place} → Paired b p q → Paired b q p
Paired-sym (inl h) = inr h
Paired-sym (inr h) = inl h

flipped :
    (b : Bool) (q : Place) (r : Option Place)
    → Keeps (λ p. Paired b q p) r
    → Keeps (λ p. Paired b p q) r
flipped b q none k = tt
flipped b q (some p) k = Paired-sym k

either-move : (b : Bool) (p q : Place) → Paired b p q → Keeps (λ p'. Paired b p' q) (open_next p q)
either-move b p q (inl h) = behind h
either-move b p q (inr h) = flipped b q (open_next p q) (ahead h)

opened1-Paired :
    (b : Bool) (s : Clients) (r : Option Place)
    → Keeps (λ p. Paired b p s.at_two) r
    → Keeps (PairedIn b) (opened1 s r)
unfolding opened1
opened1-Paired b s none k = tt
opened1-Paired b s (some p) k = k

opened2-Paired :
    (b : Bool) (s : Clients) (r : Option Place)
    → Keeps (λ q. Paired b q s.at_one) r
    → Keeps (PairedIn b) (opened2 s r)
unfolding opened2
opened2-Paired b s none k = tt
opened2-Paired b s (some q) k = Paired-sym k

step-Paired : (b : Bool) (c : Client) (s : Clients) → PairedIn b s → Keeps (PairedIn b) (step c s)
unfolding step
step-Paired b one s h =
    opened1-Paired b s (open_next s.at_one s.at_two) (either-move b s.at_one s.at_two h)
step-Paired b two s h =
    opened2-Paired b s (open_next s.at_two s.at_one)
      (either-move b s.at_two s.at_one (Paired-sym h))

start-Paired : (b : Bool) → PairedIn b (start b)
start-Paired true = inr late
start-Paired false = inl both_probe

-- What a pair has come to: connected, blocked, or one of them goes on.
Pair-outcome :
    {b : Bool} {p q : Place}
    → Pair b p q
    → ((p ≡ second) × (q ≡ first))
      ⊎ (((b ≡ false) × (p ≡ writing2) × (q ≡ writing2))
          ⊎ ((moved (open_next p q) ≡ true) ⊎ (moved (open_next q p) ≡ true)))
unfolding open_next reads1 reads2 writes2
Pair-outcome both_probe = inr (inr (inl refl))
Pair-outcome one_probes = inr (inr (inl refl))
Pair-outcome both_read = inr (inr (inl refl))
Pair-outcome one_reads = inr (inr (inl refl))
Pair-outcome both_wait = inr (inl (refl, refl, refl))
Pair-outcome late = inr (inr (inl refl))
Pair-outcome found = inr (inr (inl refl))
Pair-outcome meets = inr (inr (inl refl))
Pair-outcome meets_first = inr (inr (inl refl))
Pair-outcome meets_second = inr (inr (inr refl))
Pair-outcome met = inl (refl, refl)

opened1-moved : (s : Clients) (r : Option Place) → moved r ≡ true → moved (opened1 s r) ≡ true
unfolding opened1
opened1-moved s none e = e
opened1-moved s (some p) e = refl

opened2-moved : (s : Clients) (r : Option Place) → moved r ≡ true → moved (opened2 s r) ≡ true
unfolding opened2
opened2-moved s none e = e
opened2-moved s (some p) e = refl

Paired-outcome :
    (b : Bool) (s : Clients) → PairedIn b s → Connected s ⊎ (((b ≡ false) × Blocked s) ⊎ CanOpen s)
unfolding step
Paired-outcome b s (inl h) = elim (Pair-outcome h) [
  | inl m ↦ inl (inr m)
  | inr (inl (w, e, f)) ↦ inr (inl (w, (e, f)))
  | inr (inr (inl m)) ↦ inr (inr (inl (opened1-moved s (open_next s.at_one s.at_two) m)))
  | inr (inr (inr m)) ↦ inr (inr (inr (opened2-moved s (open_next s.at_two s.at_one) m)))
]
Paired-outcome b s (inr h) = elim (Pair-outcome h) [
  | inl (e, f) ↦ inl (inl (f, e))
  | inr (inl (w, e, f)) ↦ inr (inl (w, (f, e)))
  | inr (inr (inl m)) ↦ inr (inr (inr (opened2-moved s (open_next s.at_two s.at_one) m)))
  | inr (inr (inr m)) ↦ inr (inr (inl (opened1-moved s (open_next s.at_one s.at_two) m)))
]

-- Two clients of 123.c, in any order of their calls of `open`: one of them can go on, or each has open for
-- writing what the other has for reading, or both wait for ever for a reader of fifo2; the last does not
-- happen if one has begun when the other waited.
pub Reach-opens :
    (b : Bool) {s : Clients}
    → Reach step (start b) s
    → Connected s ⊎ (((b ≡ false) × Blocked s) ⊎ CanOpen s)
Reach-opens b {s} r =
    Paired-outcome b s (Reach-keeps step (start b) (PairedIn b) (start-Paired b) (step-Paired b) r)
