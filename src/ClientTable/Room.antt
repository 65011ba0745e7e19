-- ===== src/ClientTable/Room.antt =====
-- The sockets in the array of t2s.c, after any sequence of operations, each taken as one step.
use git.Base.{
  ℕ, ◌+◌, ◌-◌, ◌≤◌, ◌<◌, ◌≡◌, refl, ap, ◌∙◌, Bool, Bool-cases, inl, inr, Option, none, some, List,
  [], ◌∷◌, ◌==◌, if◌then◌else◌, ltb, length, arith,
}
use git.Base.Options.{◌>>=◌}
use git.Base.Bytes.{Bytes, c_str}
use git.ClientTable.Server.{
  max_clients, Client, Packet, Server, start, leave, join, chat, chat_line,
}
use git.ClientTable.Array.{live, count_fd}
use git.ClientTable.Broadcast.{broadcast-relay}
use git.ClientTable.Members.{IsValid, Left, Joined, leave-Left, join-Joined, join-full}

-- An `accept` with what `recv` gives of the name, a message, and the end of a connection. A thread acts
-- for the client that it has copied, whatever the array has become since.
pub data Event : Type 0 where
  joins : ℕ → Bytes → Event
  speaks : Client → Bytes → Event
  leaves : Client → Event

module _ (accepts : List Packet → Packet → Bool) where
  unfoldable pub handle : Event → Server → Option Server
  handle (joins cfd received) s = join accepts cfd received s
  handle (speaks cl received) s = chat accepts cl received s
  handle (leaves cl) s = leave accepts cl s

  -- `none` is an access out of bounds.
  unfoldable pub run : List Event → Server → Option Server
  run [] s = some s
  run (e ∷ es) s = do t ← handle e s; run es t

-- Who is in the room, by socket, and which sockets are closed, the latest first.
pub record Room : Type 0 where
  pub members : List ℕ
  pub closed : List ℕ

abbrev pub room : List ℕ → List ℕ → Room
room members closed = record { members = members; closed = closed }

unfoldable pub count : ℕ → List ℕ → ℕ
count f [] = 0
count f (x ∷ xs) = (if x == f then 1 else 0) + count f xs

-- One `fd` less, if there is one.
unfoldable pub without : ℕ → List ℕ → List ℕ
without fd [] = []
without fd (x ∷ xs) = let rest = without fd xs in if x == fd then xs else x ∷ rest

-- The room has 100 places, and no way to refuse a client.
unfoldable pub welcome : Event → Room → Option Room
welcome (joins cfd received) r =
    if ltb (length r.members) max_clients then some (room (cfd ∷ r.members) r.closed) else none
welcome (speaks cl received) r = some r
welcome (leaves cl) r = some (room (without cl.cfd r.members) (cl.cfd ∷ r.closed))

unfoldable pub run_room : List Event → Room → Option Room
run_room [] r = some r
run_room (e ∷ es) r = do t ← welcome e r; run_room es t

-- The array holds just the members, each as often as in the room.
pub record Holds (r : Room) (s : Server) : Type 0 where
  pub valid : IsValid s
  pub cnt : s.cnt ≡ length r.members
  pub sockets : (f : ℕ) → count_fd f (live s) ≡ count f r.members
  pub closed : s.closed ≡ r.closed

-- Both have gone on, or both are out of bounds.
unfoldable pub Agree : Option Room → Option Server → Type 0
Agree none none = Unit {0}
Agree none (some s) = ⊥
Agree (some r) none = ⊥
Agree (some r) (some s) = Holds r s

count-without :
    (f fd : ℕ) (xs : List ℕ) → count f (without fd xs) ≡ count f xs - (if fd == f then 1 else 0)
unfolding count without
count-without f fd [] = ground arith
count-without f fd (x ∷ xs) = ground (arith, count-without f fd xs)

count-length : (fd : ℕ) (xs : List ℕ) → count fd xs ≤ length xs
unfolding count
count-length fd [] = omega arith
count-length fd (x ∷ xs) = ground (arith, count-length fd xs)

length-without :
    (fd : ℕ) (xs : List ℕ)
    → length (without fd xs) ≡ length xs - (if count fd xs == 0 then 0 else 1)
unfolding count without
length-without fd [] = ground arith
length-without fd (x ∷ xs) = elim (Bool-cases (x == fd)) [
  | inl hit ↦ rw hit (ground arith)
  | inr miss ↦ rw miss (ground (arith, length-without fd xs, count-length fd xs))
]

Joined-Holds :
    {cfd : ℕ} {r : Room} {s t : Server}
    → Joined cfd s t
    → Holds r s
    → Holds (room (cfd ∷ r.members) r.closed) t
unfolding count
Joined-Holds {cfd} {r} j h = record {
  valid = j.valid;
  cnt = omega (arith, j.cnt, h.cnt);
  sockets = λ f. omega (arith, j.count f, h.sockets f);
  closed = j.closed ∙ h.closed;
}

Left-Holds :
    {fd : ℕ} {r : Room} {s t : Server}
    → Left fd s t
    → Holds r s
    → Holds (room (without fd r.members) (fd ∷ r.closed)) t
Left-Holds {fd} {r} l h = record {
  valid = l.valid;
  cnt = rw (length-without fd r.members, ← h.sockets fd, ← h.cnt) l.cnt;
  sockets = λ f. rw (count-without f fd r.members, ← h.sockets f) (l.count f);
  closed = l.closed ∙ ap (λ (xs : List ℕ). fd ∷ xs) h.closed;
}

module _ (accepts : List Packet → Packet → Bool) where
  joins-Agree :
      (cfd : ℕ) (received : Bytes) (r : Room) (s : Server)
      → Holds r s
      → Agree (welcome (joins cfd received) r) (join accepts cfd received s)
  unfolding welcome Agree
  joins-Agree cfd received r s h = elim (Bool-cases (ltb (length r.members) max_clients)) [
    | inl e ↦
        let below : s.cnt < max_clients = ground (arith, e, h.cnt) in
        let (t, done, j) = join-Joined accepts cfd received s h.valid below in
        rw (e, done) (Joined-Holds j h)
    | inr e ↦
        let full : s.cnt ≡ max_clients = ground (arith, e, h.cnt, h.valid.fits) in
        rw (e, join-full accepts cfd received s h.valid full) tt
  ]

  handle-Agree :
      (e : Event) (r : Room) (s : Server) → Holds r s → Agree (welcome e r) (handle accepts e s)
  unfolding handle welcome Agree chat
  handle-Agree (joins cfd received) r s h = joins-Agree cfd received r s h
  handle-Agree (speaks cl received) r s h =
      let msg = c_str (chat_line cl received) in
      rw (broadcast-relay accepts msg cl s (omega (arith, h.valid.whole, h.valid.fits))) (record {
        valid = record { whole = h.valid.whole; fits = h.valid.fits };
        cnt = h.cnt;
        sockets = h.sockets;
        closed = h.closed;
      })
  handle-Agree (leaves cl) r s h =
      let (t, done, l) = leave-Left accepts cl s h.valid in rw done (Left-Holds l h)

  next-Agree :
      (es : List Event) (m : Option Room) (o : Option Server)
      → ((r : Room) (s : Server) → Holds r s → Agree (run_room es r) (run accepts es s))
      → Agree m o
      → Agree (m >>= run_room es) (o >>= run accepts es)
  unfolding Agree
  next-Agree es none none rest a = tt
  next-Agree es none (some s) rest a = elim a [ ]
  next-Agree es (some r) none rest a = elim a [ ]
  next-Agree es (some r) (some s) rest a = rest r s a

  run-Agree :
      (es : List Event) (r : Room) (s : Server)
      → Holds r s
      → Agree (run_room es r) (run accepts es s)
  unfolding run run_room Agree
  run-Agree [] r s h = h
  run-Agree (e ∷ es) r s h =
      next-Agree es (welcome e r) (handle accepts e s) (run-Agree es) (handle-Agree e r s h)

  pub run-room : (es : List Event) → Agree (run_room es (room [] [])) (run accepts es start)
  unfolding count count_fd
  run-room es = run-Agree es (room [] []) start (record {
    valid = record { whole = refl; fits = omega arith };
    cnt = refl;
    sockets = λ f. refl;
    closed = refl;
  })
