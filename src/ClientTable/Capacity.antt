-- ===== src/ClientTable/Capacity.antt =====
-- How many clients `main` of t2s.c takes.
use git.Base.{
  ℕ, suc, ◌+◌, ◌≤◌, ◌<◌, ◌≡◌, ◌∙◌, ◌⊎◌, inl, inr, refl, Bool, true, false, some, List, [], ◌∷◌, leb,
  length, arith,
}
use mathlib.Core.List.{map}
use git.Io.{running, crashed}
use git.ClientTable.Server.{max_clients, Packet, Server, start}
use git.ClientTable.Members.{IsValid, join-Joined, join-full}
use git.ClientTable.Main.{Arrival, accept_loop, main}

split_at : (n : ℕ) (b : Bool) → leb n max_clients ≡ b → (n ≤ max_clients) ⊎ (max_clients < n)
split_at n true e = inl (grind (arith, e))
split_at n false e = inr (grind (arith, e))

fits_or_not : (n : ℕ) → (n ≤ max_clients) ⊎ (max_clients < n)
fits_or_not n = split_at n (leb n max_clients) refl

start-IsValid : IsValid start
start-IsValid = record { whole = refl; fits = omega arith }

module _ (accepts : List Packet → Packet → Bool) where
  accept_loop-fits :
      (arrivals : List Arrival) (s : Server)
      → IsValid s
      → s.cnt + length arrivals ≤ max_clients
      → ((accept_loop accepts (map some arrivals) s).output.status ≡ running)
        × ((accept_loop accepts (map some arrivals) s).server.cnt ≡ s.cnt + length arrivals)
  unfolding accept_loop
  accept_loop-fits [] s v h = (refl, omega arith)
  accept_loop-fits (a ∷ rest) s v h =
      let (t, e, j) = join-Joined accepts a.cfd a.received s v (omega (arith, h)) in
      let (r, c) = accept_loop-fits rest t j.valid (omega (arith, h, j.cnt)) in
      rw (accept_loop, e) (r, omega (arith, c, j.cnt))

  accept_loop-overruns :
      (arrivals : List Arrival) (s : Server)
      → IsValid s
      → max_clients < s.cnt + length arrivals
      → (accept_loop accepts (map some arrivals) s).output.status ≡ crashed
  unfolding accept_loop
  accept_loop-overruns [] s v h = absurd (omega (arith, h, v.fits))
  accept_loop-overruns (a ∷ rest) s v h = elim (fits_or_not (suc s.cnt)) [
    | inl room ↦
        let (t, e, j) = join-Joined accepts a.cfd a.received s v (omega (arith, room)) in
        rw (accept_loop, e) (accept_loop-overruns rest t j.valid (omega (arith, h, j.cnt)))
    | inr full ↦
        rw (accept_loop, join-full accepts a.cfd a.received s v (omega (arith, full, v.fits))) refl
  ]

  -- When the calls of its set-up and every `accept` succeed, and no thread moves, `main` of t2s.c takes
  -- up to 100 clients and waits for the next, and the count is their number; with more it writes out of
  -- bounds.
  pub main-capacity :
      (arrivals : List Arrival)
      → ((length arrivals ≤ max_clients)
          × ((main accepts 3 true true true (map some arrivals)).output.status ≡ running)
          × ((main accepts 3 true true true (map some arrivals)).server.cnt ≡ length arrivals))
        ⊎ ((max_clients < length arrivals)
            × ((main accepts 3 true true true (map some arrivals)).output.status ≡ crashed))
  unfolding main
  main-capacity arrivals = elim (fits_or_not (length arrivals)) [
    | inl h ↦
        let (r, c) = accept_loop-fits arrivals start start-IsValid (omega (arith, h)) in
        inl (h, r, c ∙ omega arith)
    | inr h ↦ inr (h, accept_loop-overruns arrivals start start-IsValid (omega (arith, h)))
  ]
