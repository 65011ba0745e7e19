-- ===== src/UdpChat/Hearing.antt =====
-- What the server sends to one peer.
use git.Base.{
  ℕ, suc, ◌+◌, ◌<◌, ◌≡◌, Bool-cases, inl, inr, true, false, List, [], ◌∷◌, ◌++◌, append_assoc,
  append-nil, ◌==◌, ◌&&◌, ◌||◌, if◌then◌else◌, length, replicate, arith,
}
use git.UdpChat.Heap.{SockAddr, memcmp_eq, memcmp_eq_iff, Msg, Ptr, Heap, Datagram, world}
use git.UdpChat.Server.{Libc, Received, datagram, failed, serve}
use git.UdpChat.Chain.{Cells, addrs, Chain}
use git.UdpChat.Broadcast.{others, deliver}
use git.UdpChat.Login.{Allocates}
use git.UdpChat.Room.{room_step, room_run}
use git.UdpChat.Session.{serve-Shows}
use git.UdpChat.Deliveries.{count_peer, count_peer-others, deliver-complete, Sent, Shows-Sent}

-- The messages of the datagrams that go to `b`.
unfoldable pub msgs_to : SockAddr → List Datagram → List Msg
msgs_to b [] = []
msgs_to b (d ∷ log) = if memcmp_eq b d.to then d.msg ∷ msgs_to b log else msgs_to b log

-- What `b` is to hear of one datagram, and of those up to the first failure: the logins, broadcasts
-- and quits of the others.
unfoldable pub heard_of : SockAddr → Msg → SockAddr → List Msg
heard_of b m client =
    if memcmp_eq client b
    then []
    else if m.type == b'L' || (m.type == b'B' || m.type == b'Q')
    then m ∷ []
    else []

unfoldable pub heard : SockAddr → List Received → List Msg
heard b [] = []
heard b (failed ∷ rest) = []
heard b (datagram m client ∷ rest) = heard_of b m client ++ heard b rest

-- No datagram of `rest` is a login or a quit of `b`.
abbrev pub Stays : SockAddr → List Received → Type 0
Stays b [] = Unit {0}
Stays b (failed ∷ rest) = Unit {0}
Stays b (datagram m client ∷ rest) =
    (((m.type == b'L' || m.type == b'Q') && memcmp_eq client b) ≡ false) × Stays b rest

module _ (libc : Libc) (up : (l : List Datagram) (d : Datagram) → libc.accepts l d ≡ true)
    (b : SockAddr) where
  msgs_to-snoc :
      (log : List Datagram) (d : Datagram)
      → msgs_to b (log ++ (d ∷ [])) ≡ msgs_to b log ++ (if memcmp_eq b d.to then d.msg ∷ [] else [])
  unfolding msgs_to
  msgs_to-snoc [] d = ground arith
  msgs_to-snoc (c ∷ log) d = ground (arith, msgs_to-snoc log d)

  msgs_to-deliver :
      (msg : Msg) (as_ : List SockAddr) (log : List Datagram)
      → msgs_to b (deliver libc msg as_ log).log ≡ msgs_to b log ++ replicate (count_peer b as_) msg
  unfolding deliver count_peer
  msgs_to-deliver msg [] log = rw append-nil
  msgs_to-deliver msg (a ∷ as_) log =
      let d : Datagram = record { to = a; msg = msg } in
      rw (up log d, msgs_to-deliver msg as_ (log ++ (d ∷ [])), msgs_to-snoc log d)
        (elim (Bool-cases (memcmp_eq b a)) [
          | inl same ↦
              (let e : 1 + count_peer b as_ ≡ suc (count_peer b as_) = omega arith in
                rw (same, append_assoc (msgs_to b log), e))
          | inr other ↦
              (let e : 0 + count_peer b as_ ≡ count_peer b as_ = omega arith in
                rw (other, append-nil, e))
        ])

  -- One datagram, for a peer that is in once and stays.
  room_step-heard :
      (msg : Msg) (client : SockAddr) (peers : List SockAddr) (log : List Datagram)
      → count_peer b peers ≡ 1
      → ((msg.type == b'L' || msg.type == b'Q') && memcmp_eq client b) ≡ false
      → ((room_step libc msg client peers log).alive ≡ true)
        × (count_peer b (room_step libc msg client peers log).peers ≡ 1)
        × (msgs_to b (room_step libc msg client peers log).log
            ≡ msgs_to b log ++ heard_of b msg client)
  unfolding room_step heard_of others count_peer
  room_step-heard msg client peers log once stays = ground (
    arith,
    msgs_to-deliver msg (others client peers) log,
    deliver-complete libc msg up (others client peers) log,
    count_peer-others b client peers,
    memcmp_eq_iff client b,
    memcmp_eq_iff b client,
    memcmp_eq_iff client client,
    append-nil (msgs_to b log),
  )

  room_run-heard :
      (rest : List Received) (peers : List SockAddr) (log : List Datagram)
      → count_peer b peers ≡ 1
      → Stays b rest
      → msgs_to b (room_run libc rest peers log).log ≡ msgs_to b log ++ heard b rest
  unfolding room_run heard
  room_run-heard [] peers log once stays = rw append-nil
  room_run-heard (failed ∷ rest) peers log once stays = rw append-nil
  room_run-heard (datagram msg client ∷ rest) peers log once (stays, later) =
      let r = room_step libc msg client peers log in
      let (alive, in_once, said) = room_step-heard msg client peers log once stays in
      rw (alive, room_run-heard rest r.peers r.log in_once later, said)
        (append_assoc (msgs_to b log) (heard_of b msg client) (heard b rest))

-- If `malloc` gives unused blocks and every `sendto` succeeds: a peer that has logged in once, and
-- neither logs in again nor quits, is sent exactly the logins, broadcasts and quits of the others, each
-- once, in the order in which the server receives them.
pub serve-heard :
    (libc : Libc) (k : ℕ) (p : Ptr) (a b : SockAddr) (h : Heap) (log : List Datagram) (xs : Cells)
    (rest : List Received)
    → Allocates libc
    → ((l : List Datagram) (d : Datagram) → libc.accepts l d ≡ true)
    → Chain h ((p, a) ∷ xs)
    → length xs + length rest < k
    → count_peer b (addrs xs) ≡ 1
    → Stays b rest
    → Sent (λ l. msgs_to b l ≡ msgs_to b log ++ heard b rest) (serve libc k p rest (world h log))
serve-heard libc k p a b h log xs rest alloc_ok up c fuel once stays =
    Shows-Sent (serve-Shows libc alloc_ok k p a rest h log xs c fuel)
      (room_run-heard libc up b rest (addrs xs) log once stays)
