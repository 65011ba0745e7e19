-- ===== src/ClientTable/Leaving/Alone.antt =====
-- A thread of t2s.c that searches and removes with no other in between.
use git.Base.{
  get_elem?-some, ℕ, zero, suc, ◌+◌, ◌-◌, ◌≤◌, ◌<◌, ◌≡◌, refl, Bool, true, false, Option, none,
  some, ◌==◌, get_elem?, set, ltb, Bool-cases, inl, inr, arith,
}
use git.ClientTable.Server.{Client, Server, swap_remove, remove_loop}
use git.ClientTable.Members.{IsValid}
use git.ClientTable.Leaving.{
  Place, testing, comparing, counting, copying, decreasing, storing, searched, Table, table,
  less_one, compared, copied, move, moves, of_server,
}

-- The thread comes from `p` and `t` to the end of its search, with `found` and the array and count of `s`.
abbrev Comes : Client → Place → Table → Bool → Server → Type 0
Comes cl p t found s = (n : ℕ) × (moves n cl p t ≡ some (searched found, of_server s))

Comes-after :
    (cl : Client) (p p' : Place) (t t' : Table) (found : Bool) (s : Server)
    → move cl p t ≡ some (p', t')
    → Comes cl p' t' found s
    → Comes cl p t found s
unfolding moves
Comes-after cl p p' t t' found s e (n, h) = (suc n, rw e h)

-- The search and the removal as one step each, with a result.
abbrev Ends : Client → ℕ → Server → Option (Bool × Server) → Type 0
Ends cl i s none = 1 ≤ 0
Ends cl i s (some (found, s')) = Comes cl (testing i) (of_server s) found s'

less_one-suc : (n : ℕ) → 1 ≤ n → less_one n ≡ n - 1
unfolding less_one
less_one-suc zero l = elim l [ ]
less_one-suc (suc n) l = omega arith

module _ (cl : Client) (s : Server) (v : IsValid s) where
  test_true :
      (i : ℕ) → i < s.cnt → move cl (testing i) (of_server s) ≡ some (comparing i, of_server s)
  unfolding move
  test_true i l = let e : ltb i s.cnt ≡ true = ground (arith, l) in rw e refl

  absent : (i : ℕ) → i ≡ s.cnt → Comes cl (testing i) (of_server s) false s
  unfolding move moves
  absent i h = let e : ltb i s.cnt ≡ false = ground (arith, h) in (1, rw e refl)

  missed :
      (i : ℕ) (x : Client) (r : Option (Bool × Server))
      → i < s.cnt
      → get_elem? s.client i ≡ some x
      → (x.cfd == cl.cfd) ≡ false
      → Ends cl (suc i) s r
      → Ends cl i s r
  unfolding move compared
  missed i x none l e b h = h
  missed i x (some (found, s')) l e b h =
      let t = of_server s in
      Comes-after cl (testing i) (comparing i) t t found s' (test_true i l)
        (Comes-after cl (comparing i) (testing (suc i)) t t found s' (rw (e, b) refl) h)

  less_one-count : (i : ℕ) → i < s.cnt → less_one s.cnt ≡ s.cnt - 1
  less_one-count i l = less_one-suc s.cnt (omega (arith, l))

  hit :
      (i : ℕ) (x last : Client)
      → i < s.cnt
      → get_elem? s.client i ≡ some x
      → get_elem? s.client (s.cnt - 1) ≡ some last
      → (x.cfd == cl.cfd) ≡ true
      → Comes cl
          (testing i)
          (of_server s)
          true
          (record s { client = set s.client i last; cnt = s.cnt - 1 })
  unfolding move moves compared copied
  hit i x last l e el b =
      let t = of_server s in
      let s' : Server = record s { client = set s.client i last; cnt = s.cnt - 1 } in
      let mid = table (set s.client i last) s.cnt in
      let less = less_one-count i l in
      Comes-after cl (testing i) (comparing i) t t true s' (test_true i l) (
        Comes-after cl (comparing i) (counting i) t t true s' (rw (e, b) refl) (
          Comes-after cl (counting i) (copying i (s.cnt - 1)) t t true s' (rw less refl) (
            Comes-after cl (copying i (s.cnt - 1)) decreasing t mid true s' (rw el refl)
              (Comes-after cl decreasing (storing s.cnt) mid mid true s' refl (1, rw less refl)))))

  swap_remove-last :
      (i : ℕ) (last : Client)
      → get_elem? s.client (s.cnt - 1) ≡ some last
      → swap_remove i s ≡ some (record s { client = set s.client i last; cnt = s.cnt - 1 })
  unfolding swap_remove
  swap_remove-last i last el = rw (el, swap_remove) refl

  search : (n i : ℕ) → i + n ≡ s.cnt → Ends cl i s (remove_loop n i cl s)
  unfolding remove_loop
  search zero i h = absent i (omega (arith, h))
  search (suc n) i h =
      let l : i < s.cnt = omega (arith, h) in
      let (x, e) = get_elem?-some s.client i (omega (arith, l, v.whole, v.fits)) in
      let (last, el) = get_elem?-some s.client (s.cnt - 1) (omega (arith, l, v.whole, v.fits)) in
      rw (e, remove_loop)
        (elim (Bool-cases (x.cfd == cl.cfd)) [
          | inl b ↦ rw (b, swap_remove-last i last el) (hit i x last l e el b)
          | inr b ↦
              rw b (
                missed i x (remove_loop n (suc i) cl s) l e b (search n (suc i) (omega (arith, h))))
        ])

Ends-result :
    (cl : Client) (s : Server) (r : Option (Bool × Server))
    → Ends cl 0 s r
    → (found : Bool) × (s' : Server) × (r ≡ some (found, s'))
      × Comes cl (testing 0) (of_server s) found s'
Ends-result cl s none h = elim h [ ]
Ends-result cl s (some (found, s')) h = (found, s', refl, h)

-- A thread of t2s.c that makes its accesses with no other in between comes to the end of its search, and
-- leaves the array and the count as the search and removal that is one step.
pub alone-remove_loop :
    (cl : Client) (s : Server)
    → IsValid s
    → (found : Bool) × (s' : Server) × (remove_loop s.cnt 0 cl s ≡ some (found, s'))
      × ((n : ℕ) × (moves n cl (testing 0) (of_server s) ≡ some (searched found, of_server s')))
alone-remove_loop cl s v =
    Ends-result cl s (remove_loop s.cnt 0 cl s) (search cl s v s.cnt 0 (omega arith))
