-- ===== src/SlotTable/Seats/Kept.antt =====
-- Clients of t1s.c keep their slots.
use mathlib.Core.Option.{some-injective}
use git.Base.{
  ℕ, zero, suc, ◌<◌, ◌≡◌, ◌≢◌, sym, ap, ◌∙◌, Option, none, some, List, [], ◌∷◌, ◌==◌, if◌then◌else◌,
  get_elem?, set, length, length-set, get_elem?-some, get_elem?-set_other, ltb, Bool-cases, inl,
  inr, arith,
}
use git.Steps.{Reach, Keeps, Moves, Reach-keeps}
use git.SlotTable.Table.{slots, Table}
use git.SlotTable.Seats.{
  Arrival, Main, accepting, looking, taking, broken, Search, seeking, emptying, gone, lost, Leaver,
  State, looked, accept_next, main_step, sought, search_step, put_first, behind, leaver_step,
  changed, Who, accepter, thread, step, begins, start_of,
}

-- No thread that is there or will be started takes `fd` for its own.
unfoldable pub Spared : ℕ → List ℕ → Type 0
Spared fd [] = Unit {0}
Spared fd (index ∷ rest) = (index ≢ fd) × Spared fd rest

unfoldable pub SparedBy : ℕ → List Arrival → Type 0
SparedBy fd [] = Unit {0}
SparedBy fd (a ∷ rest) = (a.index ≢ fd) × SparedBy fd rest

-- Slot `k` holds the socket `fd`.
module _ (k fd : ℕ) (used : fd ≢ 0) where
  record Holds (t : Table) : Type 0 where
    whole : length t ≡ slots
    at : get_elem? t k ≡ some fd

  Sits : Main → Type 0
  Sits accepting = Unit {0}
  Sits (looking a i) = a.index ≢ fd
  Sits (taking a i) = (a.index ≢ fd) × (i ≢ k)
  Sits broken = ⊥

  Clears : ℕ → Search → Type 0
  Clears index (seeking i) = index ≢ fd
  Clears index (emptying i) = (index ≢ fd) × (i ≢ k)
  Clears index gone = index ≢ fd
  Clears index lost = ⊥

  AllClear : List Leaver → Type 0
  AllClear [] = Unit {0}
  AllClear (l ∷ ls) = Clears l.index l.at × AllClear ls

  record IsKept (s : State) : Type 0 where
    table : Holds s.table
    arrivals : SparedBy fd s.arrivals
    main : Sits s.main
    leavers : AllClear s.leavers

  not_broken : (m : Main) → Sits m → m ≢ broken
  unfolding Sits
  not_broken accepting h e = cc
  not_broken (looking a i) h e = cc
  not_broken (taking a i) h e = cc
  not_broken broken h e = h

  -- A slot with another socket is not slot `k`.
  other_slot : (t : Table) (i x : ℕ) → Holds t → get_elem? t i ≡ some x → x ≢ fd → i ≢ k
  other_slot t i x h e n = λ same. n (some-injective x fd (sym e ∙ ap (get_elem? t) same ∙ h.at))

  set-Holds : (t : Table) (i v : ℕ) → i ≢ k → Holds t → Holds (set t i v)
  set-Holds t i v n h = record {
    whole = length-set t i v ∙ h.whole;
    at = get_elem?-set_other t i k v n ∙ h.at;
  }

  looks :
      (t : Table) (a : Arrival) (i : ℕ)
      → Holds t
      → a.index ≢ fd
      → Sits (if ltb i slots then looked a i (get_elem? t i) else accepting)
  unfolding looked Sits
  looks t a i h n = elim (Bool-cases (ltb i slots)) [
    | inr e ↦ rw e tt
    | inl e ↦
        let below : i < slots = ground (arith, e) in
        let (x, at) = get_elem?-some t i (omega (arith, below, h.whole)) in
        rw (e, at)
          (elim (Bool-cases (x == 0)) [
            | inl z ↦
                let free : x ≡ 0 = ground (arith, z) in
                rw z (n, other_slot t i x h at (λ same. used (sym same ∙ free)))
            | inr z ↦ rw z n
          ])
  ]

  seeks :
      (t : Table) (index i : ℕ)
      → Holds t
      → index ≢ fd
      → Clears index (if ltb i slots then sought index i (get_elem? t i) else gone)
  unfolding sought Clears
  seeks t index i h n = elim (Bool-cases (ltb i slots)) [
    | inr e ↦ rw e n
    | inl e ↦
        let below : i < slots = ground (arith, e) in
        let (x, at) = get_elem?-some t i (omega (arith, below, h.whole)) in
        rw (e, at)
          (elim (Bool-cases (x == index)) [
            | inl z ↦
                let own : x ≡ index = ground (arith, z) in
                rw z (n, other_slot t i x h at (λ same. n (sym own ∙ same)))
            | inr z ↦ rw z n
          ])
  ]

  search-Clears :
      (index : ℕ) (p : Search) (t : Table)
      → Holds t
      → Clears index p
      → Moves (λ p' t'. Clears index p' × Holds t') (search_step index p t)
  unfolding search_step Clears
  search-Clears index (seeking i) t h c = (seeks t index i h c, h)
  search-Clears index (emptying i) t h c = (c.0, set-Holds t i 0 c.1 h)
  search-Clears index gone t h c = tt
  search-Clears index lost t h c = tt

  first-Clears :
      (index : ℕ) (ls : List Leaver) (r : Option (Search × Table))
      → AllClear ls
      → Moves (λ p t. Clears index p × Holds t) r
      → Moves (λ ls' t. AllClear ls' × Holds t) (put_first index ls r)
  unfolding put_first AllClear
  first-Clears index ls none c m = tt
  first-Clears index ls (some (p, t)) c m = ((m.0, c), m.1)

  behind-Clears :
      (l : Leaver) (r : Option (List Leaver × Table))
      → Clears l.index l.at
      → Moves (λ ls t. AllClear ls × Holds t) r
      → Moves (λ ls t. AllClear ls × Holds t) (behind l r)
  unfolding behind AllClear
  behind-Clears l none c m = tt
  behind-Clears l (some (ls, t)) c m = ((c, m.0), m.1)

  leaver-Clears :
      (j : ℕ) (ls : List Leaver) (t : Table)
      → Holds t
      → AllClear ls
      → Moves (λ ls' t'. AllClear ls' × Holds t') (leaver_step j ls t)
  unfolding leaver_step AllClear
  leaver-Clears j [] t h c = tt
  leaver-Clears zero (l ∷ ls) t h c =
      first-Clears l.index ls (search_step l.index l.at t) c.1 (search-Clears l.index l.at t h c.0)
  leaver-Clears (suc j) (l ∷ ls) t h c =
      behind-Clears l (leaver_step j ls t) c.0 (leaver-Clears j ls t h c.1)

  changed-IsKept :
      (s : State) (r : Option (List Leaver × Table))
      → IsKept s
      → Moves (λ ls t. AllClear ls × Holds t) r
      → Keeps IsKept (changed s r)
  unfolding changed
  changed-IsKept s none v m = tt
  changed-IsKept s (some (ls, t)) v m = record {
    table = m.1;
    arrivals = v.arrivals;
    main = v.main;
    leavers = m.0;
  }

  accept_next-IsKept :
      (s : State) (rest : List Arrival)
      → IsKept s
      → SparedBy fd rest
      → Keeps IsKept (accept_next s rest)
  unfolding accept_next SparedBy Sits
  accept_next-IsKept s [] v sp = tt
  accept_next-IsKept s (a ∷ rest) v sp = record {
    table = v.table;
    arrivals = sp.1;
    main = sp.0;
    leavers = v.leavers;
  }

  main_step-IsKept : (s : State) (m : Main) → IsKept s → Sits m → Keeps IsKept (main_step s m)
  unfolding main_step Sits AllClear Clears
  main_step-IsKept s accepting v m = accept_next-IsKept s s.arrivals v v.arrivals
  main_step-IsKept s (looking a i) v m = record {
    table = v.table;
    arrivals = v.arrivals;
    main = looks s.table a i v.table m;
    leavers = v.leavers;
  }
  main_step-IsKept s (taking a i) v m = record {
    table = set-Holds s.table i a.clifd m.1 v.table;
    arrivals = v.arrivals;
    main = tt;
    leavers = (m.0, v.leavers);
  }
  main_step-IsKept s broken v m = elim m [ ]

  step-IsKept : (w : Who) (s : State) → IsKept s → Keeps IsKept (step w s)
  unfolding step
  step-IsKept accepter s v = main_step-IsKept s s.main v v.main
  step-IsKept (thread j) s v =
      changed-IsKept s (leaver_step j s.leavers s.table) v
        (leaver-Clears j s.leavers s.table v.table v.leavers)

  begins-Clear : (leaving : List ℕ) → Spared fd leaving → AllClear (begins leaving)
  unfolding begins Spared AllClear Clears
  begins-Clear [] sp = tt
  begins-Clear (index ∷ rest) sp = (sp.0, begins-Clear rest sp.1)

-- While main of t1s.c seats new clients and threads clear the slots of theirs, an access at a time in any
-- order and with no lock, a client whose socket no leaving thread and no thread to be started takes for
-- its own keeps its slot, and the table its 50.
pub Reached-kept :
    (t : Table) (arrivals : List Arrival) (leaving : List ℕ) (k fd : ℕ)
    → fd ≢ 0
    → length t ≡ slots
    → get_elem? t k ≡ some fd
    → SparedBy fd arrivals
    → Spared fd leaving
    → {s : State} → Reach step (start_of t arrivals leaving) s
    → (get_elem? s.table k ≡ some fd) × (length s.table ≡ slots) × (s.main ≢ broken)
unfolding Sits
Reached-kept t arrivals leaving k fd used whole at sp sl {s} r =
    let v =
      Reach-keeps step (start_of t arrivals leaving) (IsKept k fd used)
        record {
          table = record { whole = whole; at = at };
          arrivals = sp;
          main = tt;
          leavers = begins-Clear k fd used leaving sl;
        }
        (step-IsKept k fd used) r in
    (v.table.at, v.table.whole, not_broken k fd used s.main v.main)
