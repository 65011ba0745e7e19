-- ===== src/UdpChat/Deliveries.antt =====
-- Who gets what: counts of datagrams, seen from one address.
use git.Base.{
  ℕ, suc, ◌+◌, ◌<◌, ◌≡◌, ◌∙◌, ap, refl, true, false, List, [], ◌∷◌, ◌++◌, ◌==◌, ◌&&◌, if◌then◌else◌,
  length, arith,
}
use git.UdpChat.Heap.{
  SockAddr, memcmp_eq, memcmp_eq_iff, Msg, Ptr, Heap, Datagram, World, world, Run, ok, exited,
}
use git.UdpChat.Server.{Libc, Received, datagram, failed, process_broadcast, serve}
use git.UdpChat.Chain.{Cells, addrs, Chain}
use git.UdpChat.Broadcast.{others, deliver, send_loop-deliver}
use git.UdpChat.Login.{Allocates}
use git.UdpChat.Room.{Room, room_step, room_run}
use git.UdpChat.Session.{Shows, running, stopped, serve-Shows}

-- How many of the datagrams go to `a`.
unfoldable pub count_to : SockAddr → List Datagram → ℕ
count_to a [] = 0
count_to a (d ∷ log) = (if memcmp_eq a d.to then 1 else 0) + count_to a log

-- How often `a` has logged in and not quit.
unfoldable pub count_peer : SockAddr → List SockAddr → ℕ
count_peer a [] = 0
count_peer a (b ∷ as_) = (if memcmp_eq a b then 1 else 0) + count_peer a as_

count_to-snoc :
    (a : SockAddr) (log : List Datagram) (d : Datagram)
    → count_to a (log ++ (d ∷ [])) ≡ count_to a log + (if memcmp_eq a d.to then 1 else 0)
unfolding count_to
count_to-snoc a [] d = omega arith
count_to-snoc a (c ∷ log) d = omega (arith, count_to-snoc a log d)

module _ (a client : SockAddr) where
  pub count_peer-others :
      (as_ : List SockAddr)
      → count_peer a (others client as_) ≡ (if memcmp_eq client a then 0 else count_peer a as_)
  unfolding count_peer others
  count_peer-others [] = ground arith
  count_peer-others (b ∷ as_) = ground (
    arith,
    count_peer-others as_,
    memcmp_eq_iff client a,
    memcmp_eq_iff client b,
    memcmp_eq_iff a b,
  )

module _ (libc : Libc) (msg : Msg) where
  abbrev dgram : SockAddr → Datagram
  dgram to = record { to = to; msg = msg }

  -- A delivery that reaches the end sends as many datagrams to `a` as it names `a`.
  count_to-deliver :
      (a : SockAddr) (as_ : List SockAddr) (log : List Datagram)
      → (deliver libc msg as_ log).complete ≡ true
      → count_to a (deliver libc msg as_ log).log ≡ count_to a log + count_peer a as_
  unfolding deliver count_peer
  count_to-deliver a [] log e = omega arith
  count_to-deliver a (b ∷ as_) log e =
      ground (arith, count_to-snoc a log (dgram b), count_to-deliver a as_ (log ++ (dgram b ∷ [])))

  -- An address that is not named gets nothing, complete or not.
  count_to-deliver_absent :
      (a : SockAddr) (as_ : List SockAddr) (log : List Datagram)
      → count_peer a as_ ≡ 0
      → count_to a (deliver libc msg as_ log).log ≡ count_to a log
  unfolding deliver count_peer
  count_to-deliver_absent a [] log e = refl
  count_to-deliver_absent a (b ∷ as_) log e =
      ground (
        arith,
        count_to-snoc a log (dgram b),
        count_to-deliver_absent a as_ (log ++ (dgram b ∷ [])),
      )

-- What a run has sent when it ends, whether it returns or leaves by `exit(-1)`.
pub data Sent (P : List Datagram → Type 0) : Run (Unit {0}) → Type 0 where
  returned : (w : World) → P w.sent → Sent P (ok tt w)
  left : (w : World) → P w.sent → Sent P (exited w)

pub Shows-Sent :
    {p : Ptr} {a : SockAddr} {r : Room} {run : Run (Unit {0})} {P : List Datagram → Type 0}
    → Shows p a r run
    → P r.log
    → Sent P run
Shows-Sent (running g xs e c same) h = returned (world g _) h
Shows-Sent (stopped g e) h = left (world g _) h

-- No datagram of `rest` is a login of `a`.
abbrev NoLogin : SockAddr → List Received → Type 0
NoLogin a [] = Unit {0}
NoLogin a (failed ∷ rest) = NoLogin a rest
NoLogin a (datagram msg client ∷ rest) =
    ((msg.type == b'L' && memcmp_eq a client) ≡ false) × NoLogin a rest

module _ (libc : Libc) (a : SockAddr) where
  -- A peer that is out stays out, and is sent nothing.
  room_step-silent :
      (msg : Msg) (client : SockAddr) (peers : List SockAddr) (log : List Datagram)
      → count_peer a peers ≡ 0
      → (msg.type == b'L' && memcmp_eq a client) ≡ false
      → (count_peer a (room_step libc msg client peers log).peers ≡ 0)
        × (count_to a (room_step libc msg client peers log).log ≡ count_to a log)
  unfolding room_step others count_peer
  room_step-silent msg client peers log out quiet = ground (
    arith,
    count_peer-others a client peers,
    count_to-deliver_absent libc msg a (others client peers) log,
    memcmp_eq_iff a client,
    memcmp_eq_iff client client,
  )

  room_run-silent :
      (rest : List Received) (peers : List SockAddr) (log : List Datagram)
      → count_peer a peers ≡ 0
      → NoLogin a rest
      → count_to a (room_run libc rest peers log).log ≡ count_to a log
  unfolding room_run
  room_run-silent [] peers log out quiet = refl
  room_run-silent (failed ∷ rest) peers log out quiet = refl
  room_run-silent (datagram msg client ∷ rest) peers log out quiet =
      let r = room_step libc msg client peers log in
      let s = room_step-silent msg client peers log out quiet.0 in
      ground (arith, room_run-silent rest r.peers r.log s.0 quiet.1, s.1)

module _ (libc : Libc) (a : SockAddr) where
  room_step-quit :
      (quit : Msg) (peers : List SockAddr) (log : List Datagram)
      → quit.type ≡ b'Q'
      → (count_peer a (room_step libc quit a peers log).peers ≡ 0)
        × (count_to a (room_step libc quit a peers log).log ≡ count_to a log)
  unfolding room_step
  room_step-quit quit peers log is_q = ground (
    arith,
    count_peer-others a a peers,
    count_to-deliver_absent libc quit a (others a peers) log,
    memcmp_eq_iff a a,
  )

  quit_run-silent :
      (quit : Msg) (rest : List Received) (peers : List SockAddr) (log : List Datagram)
      → quit.type ≡ b'Q'
      → NoLogin a rest
      → count_to a (room_run libc (datagram quit a ∷ rest) peers log).log ≡ count_to a log
  unfolding room_run
  quit_run-silent quit rest peers log is_q quiet =
      let r = room_step libc quit a peers log in
      let s = room_step-quit quit peers log is_q in
      ground (arith, room_run-silent libc a rest r.peers r.log s.0 quiet, s.1)

module _ (libc : Libc) where
  pub deliver-complete :
      (msg : Msg)
      → ((l : List Datagram) (d : Datagram) → libc.accepts l d ≡ true)
      → (as_ : List SockAddr) (log : List Datagram) → (deliver libc msg as_ log).complete ≡ true
  unfolding deliver
  deliver-complete msg up [] log = refl
  deliver-complete msg up (b ∷ as_) log =
      rw (up log (record { to = b; msg = msg })) (deliver-complete msg up as_ _)

  -- After a 'Q' its source is sent nothing more until it logs in again, however often it had logged
  -- in before: for every list, every continuation and every behaviour of `sendto`.
  pub serve-quit-silent :
      (k : ℕ) (p : Ptr) (b a : SockAddr) (h : Heap) (log : List Datagram) (xs : Cells) (quit : Msg)
      (rest : List Received)
      → Allocates libc
      → Chain h ((p, b) ∷ xs)
      → length xs + suc (length rest) < k
      → quit.type ≡ b'Q'
      → NoLogin a rest
      → Sent
          (λ l. count_to a l ≡ count_to a log)
          (serve libc k p (datagram quit a ∷ rest) (world h log))
  serve-quit-silent k p b a h log xs quit rest alloc_ok c fuel is_q quiet =
      Shows-Sent (serve-Shows libc alloc_ok k p b (datagram quit a ∷ rest) h log xs c fuel)
        (quit_run-silent libc a quit rest (addrs xs) log is_q quiet)

  -- While `sendto` succeeds, a broadcast returns with memory unchanged, and each address gets one
  -- copy for each time it is in the list, its source none.
  pub process_broadcast-count :
      (k : ℕ) (p : Ptr) (b client : SockAddr) (h : Heap) (log : List Datagram) (xs : Cells)
      (msg : Msg)
      → ((l : List Datagram) (d : Datagram) → libc.accepts l d ≡ true)
      → Chain h ((p, b) ∷ xs)
      → length xs < k
      → (after : List Datagram) × (process_broadcast libc k p msg client (world h log)
          ≡ ok tt (world h after))
        × ((a : SockAddr)
            → count_to a after
              ≡ count_to a log + (if memcmp_eq client a then 0 else count_peer a (addrs xs)))
  unfolding process_broadcast
  process_broadcast-count k p b client h log xs msg up c fuel = (
    (deliver libc msg (others client (addrs xs)) log).log,
    rw (send_loop-deliver libc msg client k h log p b xs c fuel, deliver-complete msg up _ log),
    λ a.
        count_to-deliver libc msg a (others client (addrs xs)) log (deliver-complete msg up _ log)
        ∙ ap (λ n. count_to a log + n) (count_peer-others a client (addrs xs)),
  )
