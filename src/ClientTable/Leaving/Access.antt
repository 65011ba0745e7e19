-- ===== src/ClientTable/Leaving/Access.antt =====
-- What one access of a thread of t2s.c does to the array and the count.
use git.Base.{
  get_elem?-some, ℕ, zero, suc, ◌+◌, ◌≤◌, ◌<◌, ◌≡◌, refl, ap, ◌∙◌, true, false, some, List, ◌==◌,
  if◌then◌else◌, set, length, length-set, ltb, Bool-cases, inl, inr, arith,
}
use git.Steps.{Moves}
use git.ClientTable.Server.{max_clients, Client}
use git.ClientTable.Leaving.{
  Place, testing, comparing, counting, copying, decreasing, storing, searched, faulted, Table,
  table, less_one, compared, copied, move,
}

-- A thread that has removed a client counts 1.
abbrev pub done : Place → ℕ
done (testing i) = 0
done (comparing i) = 0
done (counting i) = 0
done (copying i j) = 0
done decreasing = 0
done (storing v) = 0
done (searched true) = 1
done (searched false) = 0
done faulted = 0

-- `c` clients at first, of which `w` threads have removed one.
abbrev pub Fine : ℕ → ℕ → Place → Type 0
Fine c w (testing i) = Unit {0}
Fine c w (comparing i) = i < c
Fine c w (counting i) = i < c
Fine c w (copying i j) = (i < c) × (j < c)
Fine c w decreasing = Unit {0}
Fine c w (storing v) = (v ≤ c) × (c ≤ v + w)
Fine c w (searched found) = Unit {0}
Fine c w faulted = ⊥

pub record Ok (c w : ℕ) (t : Table) : Type 0 where
  pub whole : length t.client ≡ max_clients
  pub low : c ≤ t.cnt + w
  pub high : t.cnt ≤ c
  pub below : 1 ≤ w → t.cnt < c

-- An access from `p` to `p'`, after which `more` threads have removed a client.
pub record Moved (c w : ℕ) (p p' : Place) (t : Table) : Type 0 where
  pub more : ℕ
  pub later : w ≤ more
  pub rise : done p' + w ≡ done p + more
  pub ok : Ok c more t
  pub fine : Fine c more p'

pub Fine-later : (c w x : ℕ) (p : Place) → w ≤ x → Fine c w p → Fine c x p
Fine-later c w x (testing i) l f = tt
Fine-later c w x (comparing i) l f = f
Fine-later c w x (counting i) l f = f
Fine-later c w x (copying i j) l f = f
Fine-later c w x decreasing l f = tt
Fine-later c w x (storing v) l f = (f.0, omega (arith, f.1))
Fine-later c w x (searched found) l f = tt
Fine-later c w x faulted l f = elim f [ ]

module _ (c w : ℕ) where
  stays : (p p' : Place) (t : Table) → done p' ≡ done p → Ok c w t → Fine c w p' → Moved c w p p' t
  stays p p' t e o f = record {
    more = w;
    later = omega arith;
    rise = ap (λ d. d + w) e;
    ok = o;
    fine = f;
  }

  tested :
      (i : ℕ) (t : Table)
      → Ok c w t
      → Moved c w (testing i) (if ltb i t.cnt then comparing i else searched false) t
  tested i t o = elim (Bool-cases (ltb i t.cnt)) [
    | inl e ↦
        let inside : i < t.cnt = ground (arith, e) in
        rw e (stays (testing i) (comparing i) t refl o (omega (arith, o.high)))
    | inr e ↦ rw e (stays (testing i) (searched false) t refl o tt)
  ]

  compared-Moved :
      (cl x : Client) (i : ℕ) (t : Table)
      → Ok c w t
      → i < c
      → Moved c w (comparing i) (compared cl i (some x)) t
  unfolding compared
  compared-Moved cl x i t o l = elim (Bool-cases (x.cfd == cl.cfd)) [
    | inl e ↦ rw e (stays (comparing i) (counting i) t refl o l)
    | inr e ↦ rw e (stays (comparing i) (testing (suc i)) t refl o tt)
  ]

  set-Ok :
      (xs : List Client) (n i : ℕ) (x : Client)
      → Ok c w (table xs n)
      → Ok c w (table (set xs i x) n)
  set-Ok xs n i x o = record {
    whole = length-set xs i x ∙ o.whole;
    low = o.low;
    high = o.high;
    below = o.below;
  }

  removed :
      (v : ℕ) (t : Table)
      → Ok c w t
      → v ≤ c
      → c ≤ v + w
      → w < c
      → Moved c w (storing v) (searched true) (table t.client (less_one v))
  unfolding less_one
  removed zero t o a b l = let none_left : 1 ≤ 0 = omega (arith, b, l) in elim none_left [ ]
  removed (suc n) t o a b l = record {
    more = suc w;
    later = omega arith;
    rise = omega arith;
    ok = record {
      whole = o.whole;
      low = omega (arith, b);
      high = omega (arith, a);
      below = λ h. a;
    };
    fine = tt;
  }

  less_one-below : (n : ℕ) → n ≤ c → c ≤ n + w → w < c → less_one n < c
  unfolding less_one
  less_one-below zero a b l = omega (arith, b, l)
  less_one-below (suc n) a b l = a

  pub move-Moved :
      (cl : Client) (p : Place) (t : Table)
      → c ≤ max_clients
      → Ok c w t
      → Fine c w p
      → (done p ≡ 0 → w < c)
      → Moves (Moved c w p) (move cl p t)
  unfolding move copied
  move-Moved cl (testing i) t fits o f u = tested i t o
  move-Moved cl (comparing i) t fits o f u =
      let (x, e) = get_elem?-some t.client i (omega (arith, f, fits, o.whole)) in
      rw e (compared-Moved cl x i t o f)
  move-Moved cl (counting i) t fits o f u =
      stays (counting i) (copying i (less_one t.cnt)) t refl o
        (f, less_one-below t.cnt o.high o.low (u refl))
  move-Moved cl (copying i j) t fits o f u =
      let (x, e) = get_elem?-some t.client j (omega (arith, f.1, fits, o.whole)) in
      rw e (
        stays (copying i j) decreasing (table (set t.client i x) t.cnt) refl
          (set-Ok t.client t.cnt i x o) tt)
  move-Moved cl decreasing t fits o f u = stays decreasing (storing t.cnt) t refl o (o.high, o.low)
  move-Moved cl (storing v) t fits o f u = removed v t o f.0 f.1 (u refl)
  move-Moved cl (searched found) t fits o f u = tt
  move-Moved cl faulted t fits o f u = elim f [ ]
