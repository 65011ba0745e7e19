-- ===== src/ClientTable/Members.antt =====
-- Which clients are live after a leave or a join.
use git.Base.{
  get_elem?-some, ℕ, zero, suc, ◌+◌, ◌-◌, ◌≤◌, ◌<◌, ◌≡◌, refl, ap, ◌∙◌, Bool, true, false, inl, inr,
  Option, none, some, List, [], ◌∷◌, ◌++◌, ◌==◌, if◌then◌else◌, get_elem?, set, take, drop, length,
  length-set, Bool-cases, ==_iff, arith,
}
use git.Base.Options.{◌>>=◌}
use git.Base.Bytes.{Bytes, c_str}
use git.ClientTable.Server.{
  max_clients, Client, Packet, Server, your_friend, is_online, overlay, broadcast, swap_remove,
  remove_loop, leave, join, chat_line, has_left,
}
use git.ClientTable.Array.{
  live, count_fd, get_elem?-none, count_fd-take-suc, take-set_above, take-drop_get, count_fd-swap,
  get_elem?-set_self,
}
use git.ClientTable.Broadcast.{relay, broadcast-relay}

pub record IsValid (s : Server) : Type 0 where
  pub whole : length s.client ≡ max_clients
  pub fits : s.cnt ≤ max_clients

-- One client with the socket `fd` is gone, and all else is as it was but for the order.
record LostOne (fd : ℕ) (s s' : Server) : Type 0 where
  pub cnt : suc s'.cnt ≡ s.cnt
  pub whole : length s'.client ≡ length s.client
  pub sent : s'.sent ≡ s.sent
  pub closed : s'.closed ≡ s.closed
  pub count : (f : ℕ) → count_fd f (live s') + (if fd == f then 1 else 0) ≡ count_fd f (live s)

swap_remove-LostOne :
    (i m : ℕ) (s : Server) {x last : Client}
    → i < s.cnt
    → s.cnt ≡ suc m
    → get_elem? s.client i ≡ some x
    → get_elem? s.client m ≡ some last
    → (swap_remove i s ≡ some (record s { client = set s.client i last; cnt = m }))
      × LostOne x.cfd s (record s { client = set s.client i last; cnt = m })
unfolding swap_remove
swap_remove-LostOne i m s {x} {last} h k e el = (
  ground (arith, el),
  record {
    cnt = omega arith;
    whole = length-set s.client i last;
    sent = refl;
    closed = refl;
    count = λ f. rw k (count_fd-swap f s.client m i (omega arith) e el);
  },
)

-- What the search of `pthread_run` ends with.
data Searched (fd : ℕ) (s : Server) (later : List Client) : Option (Bool × Server) → Type 0 where
  absent : count_fd fd later ≡ 0 → Searched fd s later (some (false, s))
  dropped : (s' : Server) → LostOne fd s s' → Searched fd s later (some (true, s'))

Searched-cons :
    {fd : ℕ} {s : Server} {later : List Client} {x : Client} {r : Option (Bool × Server)}
    → (x.cfd == fd) ≡ false
    → Searched fd s later r
    → Searched fd s (x ∷ later) r
unfolding count_fd
Searched-cons miss (absent none_there) = absent (ground arith)
Searched-cons miss (dropped s' lost) = dropped s' lost

remove_loop-Searched :
    (n i : ℕ) (cl : Client) (s : Server)
    → n + i ≡ s.cnt
    → s.cnt ≤ length s.client
    → Searched cl.cfd s (take n (drop i s.client)) (remove_loop n i cl s)
unfolding remove_loop count_fd
remove_loop-Searched zero i cl s h k = absent refl
remove_loop-Searched (suc n) i cl s h k =
    let (x, e) = get_elem?-some s.client i (omega arith) in
    let (last, el) = get_elem?-some s.client (s.cnt - 1) (omega arith) in
    rw (take-drop_get s.client n i e) (
      rw (e, remove_loop)
        (elim (Bool-cases (x.cfd == cl.cfd)) [
          | inl hit ↦
              let (found, lost) =
                swap_remove-LostOne i (s.cnt - 1) s (omega arith) (omega arith) e el in
              rw (hit, found) (dropped _ (rw ((==_iff x.cfd cl.cfd).0 hit) at lost))
          | inr miss ↦
              rw miss (Searched-cons miss (remove_loop-Searched n (suc i) cl s (omega arith) k))
        ]))

-- The branch `ret <= 0`: the array stays within its bounds, the socket is closed, one client with it
-- is gone from the live ones if there was one, and all others are kept.
pub record Left (fd : ℕ) (s s' : Server) : Type 0 where
  pub cnt : s'.cnt ≡ s.cnt - (if count_fd fd (live s) == 0 then 0 else 1)
  pub valid : IsValid s'
  pub closed : s'.closed ≡ fd ∷ s.closed
  pub count : (f : ℕ) → count_fd f (live s') ≡ count_fd f (live s) - (if fd == f then 1 else 0)

-- The new client stands behind the live ones.
pub record Joined (fd : ℕ) (s s' : Server) : Type 0 where
  pub valid : IsValid s'
  pub cnt : s'.cnt ≡ suc s.cnt
  pub closed : s'.closed ≡ s.closed
  pub count : (f : ℕ) → count_fd f (live s') ≡ count_fd f (live s) + (if fd == f then 1 else 0)

module _ (accepts : List Packet → Packet → Bool) where
  leave-after :
      (cl : Client) (s : Server) {r : Option (Bool × Server)}
      → IsValid s
      → Searched cl.cfd s (live s) r
      → (s' : Server) × ((do
        (found, t) ← r
        let msg = if found then your_friend ++ (c_str cl.name ++ has_left) else chat_line cl []
        u ← broadcast accepts msg cl t
        some (record u { closed = cl.cfd ∷ u.closed }))
          ≡ some s')
        × Left cl.cfd s s'
  leave-after cl s v (absent none_there) =
      let msg = chat_line cl [] in
      (
        record s { sent = relay accepts msg cl (live s) s.sent; closed = cl.cfd ∷ s.closed },
        rw (broadcast-relay accepts msg cl s (omega (arith, v.whole, v.fits))),
        record {
          cnt = ground (arith, none_there);
          valid = record { whole = v.whole; fits = v.fits };
          closed = refl;
          count = λ f. ground (arith, none_there);
        },
      )
  leave-after cl s v (dropped t lost) =
      let msg = your_friend ++ (c_str cl.name ++ has_left) in
      (
        record t { sent = relay accepts msg cl (live t) t.sent; closed = cl.cfd ∷ t.closed },
        rw (
            broadcast-relay accepts msg cl t
              (omega (arith, v.whole, v.fits, lost.cnt, lost.whole))),
        record {
          cnt = ground (arith, lost.cnt, lost.count cl.cfd);
          valid = record { whole = lost.whole ∙ v.whole; fits = omega (arith, lost.cnt, v.fits) };
          closed = ap (λ (l : List ℕ). cl.cfd ∷ l) lost.closed;
          count = λ f. omega (arith, lost.count f);
        },
      )

  -- In a valid server every departure stays within the array and ends in a valid server: the socket is
  -- closed, and there is one live client less with it, if there was one, and no other change to the
  -- sockets that are live.
  pub leave-Left :
      (cl : Client) (s : Server)
      → IsValid s
      → (s' : Server) × (leave accepts cl s ≡ some s') × Left cl.cfd s s'
  unfolding leave
  leave-Left cl s v =
      leave-after cl s v
        (remove_loop-Searched s.cnt 0 cl s (omega arith) (omega (arith, v.whole, v.fits)))

  -- `client[cnt]` written and the count raised.
  count_fd-added :
      (f : ℕ) (s : Server) (new : Client)
      → s.cnt < length s.client
      → count_fd f (take (s.cnt + 1) (set s.client s.cnt new))
        ≡ count_fd f (live s) + (if new.cfd == f then 1 else 0)
  count_fd-added f s new h =
      let next : s.cnt + 1 ≡ suc s.cnt = omega arith in
      rw (
        next,
        count_fd-take-suc f (set s.client s.cnt new) s.cnt
            (get_elem?-set_self s.client s.cnt new h),
        take-set_above s.client s.cnt s.cnt new (omega arith),
      )

  join-at :
      (cfd : ℕ) (received : Bytes) (s : Server) (old : Client)
      → get_elem? s.client s.cnt ≡ some old
      → IsValid s
      → s.cnt < max_clients
      → (s' : Server) × (join accepts cfd received s ≡ some s') × Joined cfd s s'
  unfolding join
  join-at cfd received s old e v h =
      let new : Client = record { cfd = cfd; name = overlay received old.name } in
      let s1 : Server = record s { client = set s.client s.cnt new } in
      let msg = your_friend ++ (c_str new.name ++ is_online) in
      let len : length s1.client ≡ max_clients = length-set s.client s.cnt new ∙ v.whole in
      (
        record s1 { sent = relay accepts msg new (live s1) s.sent; cnt = s.cnt + 1 },
        rw (e, join) (rw (broadcast-relay accepts msg new s1 (omega arith)) refl),
        record {
          valid = record { whole = len; fits = omega arith };
          cnt = omega arith;
          closed = refl;
          count = λ f. count_fd-added f s new (omega (arith, v.whole));
        },
      )

  -- In a valid server with fewer than 100 live clients, a join succeeds: the server stays valid, `cnt`
  -- is raised by one, nothing is closed, and the new socket is live once more and all others as often.
  pub join-Joined :
      (cfd : ℕ) (received : Bytes) (s : Server)
      → IsValid s
      → s.cnt < max_clients
      → (s' : Server) × (join accepts cfd received s ≡ some s') × Joined cfd s s'
  join-Joined cfd received s v h =
      let (old, e) = get_elem?-some s.client s.cnt (omega (arith, v.whole)) in
      join-at cfd received s old e v h

  -- In a valid server with 100 live clients, a join is not refused: its write to `client[cnt]` is out
  -- of bounds.
  pub join-full :
      (cfd : ℕ) (received : Bytes) (s : Server)
      → IsValid s
      → s.cnt ≡ max_clients
      → join accepts cfd received s ≡ none
  unfolding join
  join-full cfd received s v full =
      rw (get_elem?-none s.client s.cnt (omega (arith, v.whole)), join)
