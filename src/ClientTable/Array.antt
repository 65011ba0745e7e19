-- ===== src/ClientTable/Array.antt =====
-- The clients in use, `client[0]` to `client[cnt-1]`, counted by their sockets.
use git.Base.{
  ℕ, zero, suc, ◌+◌, ◌≤◌, ◌<◌, ◌≡◌, refl, ap, none, some, List, [], ◌∷◌, ◌++◌, ◌==◌, if◌then◌else◌,
  get_elem?, set, take, drop, length, arith,
}
use native.Mathlib.Decide.{dec_lt}
use git.ClientTable.Server.{Client, Server}

abbrev pub live : Server → List Client
live s = take s.cnt s.client

-- How many of the clients use the socket `fd`.
unfoldable pub count_fd : ℕ → List Client → ℕ
count_fd fd [] = 0
count_fd fd (x ∷ xs) = (if x.cfd == fd then 1 else 0) + count_fd fd xs

pub get_elem?-none : (xs : List Client) (i : ℕ) → length xs ≤ i → get_elem? xs i ≡ none
get_elem?-none [] i h = refl
get_elem?-none (x ∷ xs) zero h = elim h [ ]
get_elem?-none (x ∷ xs) (suc i) h = get_elem?-none xs i (omega arith)

pub take-set_above :
    (xs : List Client) (n i : ℕ) (v : Client) → n ≤ i → take n (set xs i v) ≡ take n xs
take-set_above [] n i v h = refl
take-set_above (y ∷ xs) zero i v h = refl
take-set_above (y ∷ xs) (suc n) zero v h = elim h [ ]
take-set_above (y ∷ xs) (suc n) (suc i) v h = rw (take-set_above xs n i v (omega arith))

module _ (fd : ℕ) where
  pub count_fd-take-suc :
      (xs : List Client) (n : ℕ) {x : Client}
      → get_elem? xs n ≡ some x
      → count_fd fd (take (suc n) xs) ≡ count_fd fd (take n xs) + (if x.cfd == fd then 1 else 0)
  unfolding count_fd
  count_fd-take-suc [] n e = cc
  count_fd-take-suc (y ∷ xs) zero e = ground arith
  count_fd-take-suc (y ∷ xs) (suc n) e = omega (arith, count_fd-take-suc xs n e)

  pub count_fd-set :
      (xs : List Client) (n i : ℕ) (v : Client) {x : Client}
      → i < n
      → get_elem? xs i ≡ some x
      → count_fd fd (take n (set xs i v)) + (if x.cfd == fd then 1 else 0)
        ≡ count_fd fd (take n xs) + (if v.cfd == fd then 1 else 0)
  unfolding count_fd
  count_fd-set [] n i v h e = cc
  count_fd-set (y ∷ xs) zero i v h e = elim h [ ]
  count_fd-set (y ∷ xs) (suc n) zero v h e = ground arith
  count_fd-set (y ∷ xs) (suc n) (suc i) v h e = omega (arith, count_fd-set xs n i v (omega arith) e)

take-snoc :
    (xs : List Client) (n : ℕ) {x : Client}
    → get_elem? xs n ≡ some x
    → take (suc n) xs ≡ take n xs ++ (x ∷ [])
take-snoc [] n e = cc
take-snoc (y ∷ xs) zero e = ground arith
take-snoc (y ∷ xs) (suc n) e = rw (take-snoc xs n e)

pub get_elem?-set_self :
    (xs : List Client) (i : ℕ) (v : Client) → i < length xs → get_elem? (set xs i v) i ≡ some v
get_elem?-set_self [] i v h = elim h [ ]
get_elem?-set_self (x ∷ xs) zero v h = refl
get_elem?-set_self (x ∷ xs) (suc i) v h = get_elem?-set_self xs i v (omega arith)

-- Overwriting place `i` by the last of the first `m + 1`, and dropping the last, drops one client.
pub count_fd-swap :
    (fd : ℕ) (xs : List Client) (m i : ℕ) {x last : Client}
    → i < suc m
    → get_elem? xs i ≡ some x
    → get_elem? xs m ≡ some last
    → count_fd fd (take m (set xs i last)) + (if x.cfd == fd then 1 else 0)
      ≡ count_fd fd (take (suc m) xs)
count_fd-swap fd xs m i {x} {last} h e el = elim (dec_lt i m) [
  | yes below ↦ omega (arith, count_fd-take-suc fd xs m el, count_fd-set fd xs m i last below e)
  | no last_place ↦
      let same : i ≡ m = omega arith in
      let at : get_elem? xs i ≡ get_elem? xs m = ap (get_elem? xs) same in
      let eq : x ≡ last = cc in
      rw (take-set_above xs m i last (omega arith), eq, count_fd-take-suc fd xs m el)
]

pub take-drop_get :
    (xs : List Client) (n i : ℕ) {x : Client}
    → get_elem? xs i ≡ some x
    → take (suc n) (drop i xs) ≡ x ∷ take n (drop (suc i) xs)
take-drop_get [] n i e = cc
take-drop_get (y ∷ xs) n zero e = ground arith
take-drop_get (y ∷ xs) n (suc i) e = take-drop_get xs n i e
