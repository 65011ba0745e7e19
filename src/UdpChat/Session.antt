-- ===== src/UdpChat/Session.antt =====
-- The server on the heap does what the room says, datagram by datagram.
use git.Base.{
  ℕ, suc, ◌+◌, ◌<◌, ◌≡◌, refl, ap, true, false, inl, inr, List, [], ◌∷◌, ◌==◌, if◌then◌else◌,
  Bool-cases, ltb, length, arith,
}
use git.UdpChat.Heap.{
  SockAddr, Msg, Ptr, Heap, Datagram, world, Run, ok, exited, then_run, read-write,
}
use git.UdpChat.Server.{
  Libc, Received, datagram, failed, zero_addr, process_login, process_broadcast, dispatch, serve,
  Setup, parent, main, main_loop, linklist_create, alloc,
}
use git.Base.Bytes.{Bytes}
use git.UdpChat.Chain.{Cells, addrs, Chain, not-null}
use git.UdpChat.Broadcast.{others, deliver, Delivery, settle, send_loop-deliver}
use git.UdpChat.Quit.{keep, addrs-keep, Unlinked, Settles, settled, broken, process_quit-Unlinked}
use git.UdpChat.Login.{Allocates, linked, Chain-linked, insert_data-linked}
use git.UdpChat.Room.{Room, room, room_step, room_run, length-room_step}

-- A run shows a room: it goes on with a list of the room's peers, or it has left with `exit(-1)`
-- and the room has stopped; in both cases the datagrams sent are the room's.
pub data Shows (p : Ptr) (a : SockAddr) (r : Room) : Run (Unit {0}) → Type 0 where
  running :
      (g : Heap) (xs : Cells)
      → r.alive ≡ true
      → Chain g ((p, a) ∷ xs)
      → addrs xs ≡ r.peers
      → Shows p a r (ok tt (world g r.log))
  stopped : (g : Heap) → r.alive ≡ false → Shows p a r (exited (world g r.log))

length-addrs : (xs : Cells) → length (addrs xs) ≡ length xs
length-addrs [] = refl
length-addrs (x ∷ xs) = omega (arith, length-addrs xs)

module _ (p : Ptr) (a : SockAddr) where
  Shows-settle :
      (h : Heap) (xs : Cells) (d : Delivery)
      → Chain h ((p, a) ∷ xs)
      → Shows p a (room (addrs xs) d) (settle d h)
  Shows-settle h xs d c = elim (Bool-cases d.complete) [
    | inl all ↦ rw all (running h xs refl c refl)
    | inr part ↦ rw part (stopped h refl)
  ]

  Shows-Settles :
      {client : SockAddr} {h : Heap} {xs : Cells} {d : Delivery} {r : Run (Unit {0})}
      → Settles (Unlinked client h p a xs) d r
      → Shows p a (room (others client (addrs xs)) d) r
  Shows-Settles {client} {xs} (settled g e u) =
      running g (keep client xs) e u.chain (addrs-keep client xs)
  Shows-Settles (broken g e) = stopped g e

module _ (libc : Libc) (alloc_ok : Allocates libc) (k : ℕ) (p : Ptr) (a : SockAddr) where
  process_login-Shows :
      (msg : Msg) (client : SockAddr) (h : Heap) (log : List Datagram) (xs : Cells)
      → Chain h ((p, a) ∷ xs)
      → suc (length xs) < k
      → Shows p a
          (room (client ∷ addrs xs) (deliver libc msg (others client (client ∷ addrs xs)) log))
          (process_login libc k p msg client (world h log))
  unfolding process_login
  process_login-Shows msg client h log xs c fuel =
      let f = libc.malloc h in
      let c' = Chain-linked h f p a client xs (alloc_ok h).0 (alloc_ok h).1 c in
      rw
        (
          insert_data-linked libc alloc_ok h log p a client xs c,
          send_loop-deliver libc msg client k (linked h f p a client xs) log p a ((f, client) ∷ xs)
              c' fuel,
        )
        (Shows-settle p a (linked h f p a client xs) ((f, client) ∷ xs) _ c')

  pub dispatch-Shows :
      (msg : Msg) (client : SockAddr) (h : Heap) (log : List Datagram) (xs : Cells)
      → Chain h ((p, a) ∷ xs)
      → suc (length xs) < k
      → Shows p a
          (room_step libc msg client (addrs xs) log)
          (dispatch libc k p msg client (world h log))
  unfolding dispatch process_broadcast room_step
  dispatch-Shows msg client h log xs c fuel = elim (Bool-cases (msg.type == b'L')) [
    | inl l ↦ rw l (process_login-Shows msg client h log xs c fuel)
    | inr nl ↦ rw nl (elim (Bool-cases (msg.type == b'B')) [
      | inl b ↦
          rw (b, send_loop-deliver libc msg client k h log p a xs c (omega arith))
            (Shows-settle p a h xs _ c)
      | inr nb ↦ rw nb (elim (Bool-cases (msg.type == b'Q')) [
        | inl q ↦ rw q (
            Shows-Settles p a
              (process_quit-Unlinked libc msg client k h log p a xs c (omega arith)))
        | inr nq ↦ rw nq (running h xs refl c refl)
      ])
    ])
  ]

  -- What is left to do, from any list of peers.
  abbrev Rest : List Received → Type 0
  Rest rest =
      (h : Heap) (log : List Datagram) (xs : Cells)
      → Chain h ((p, a) ∷ xs)
      → length xs + length rest < k
      → Shows p a (room_run libc rest (addrs xs) log) (serve libc k p rest (world h log))

  Shows-then :
      (rest : List Received) (rm : Room) {r : Run (Unit {0})}
      → Rest rest
      → Shows p a rm r
      → length rm.peers + length rest < k
      → Shows p a
          (let more = room_run libc rest rm.peers rm.log in if rm.alive then more else rm)
          (then_run r (λ _. serve libc k p rest))
  Shows-then rest rm next (running g xs e c same) fuel = rw e (
      rw (← same)
        (next g rm.log xs c (omega (arith, length-addrs xs, ap (length {A = SockAddr}) same))))
  Shows-then rest rm next (stopped g e) fuel = rw e (stopped g refl)

  -- `serve` implements the room: whatever arrives, and whichever `sendto` fails.
  pub serve-Shows : (rest : List Received) → Rest rest
  unfolding serve room_run
  serve-Shows [] h log xs c fuel = running h xs refl c refl
  serve-Shows (failed ∷ rest) h log xs c fuel = stopped h refl
  serve-Shows (datagram msg client ∷ rest) h log xs c fuel =
      Shows-then rest (room_step libc msg client (addrs xs) log) (serve-Shows rest)
        (dispatch-Shows msg client h log xs c (omega arith))
        (omega (arith, length-room_step libc msg client (addrs xs) log, length-addrs xs))

-- Every call before the loop succeeds, and this is the parent.
pub record Started (setup : Setup) : Type 0 where
  pub args : ltb setup.argc 3 ≡ false
  pub socket : setup.socket_ok ≡ true
  pub bind : setup.bind_ok ≡ true
  pub fork : setup.fork ≡ parent

-- From an empty heap, if `malloc` gives unused blocks, the calls of `main` before the fork succeed, and
-- the fuel is above the number of datagrams: the parent process of `main` does what the abstract room
-- does with the same datagrams. It sends the room's datagrams in the room's order, holds the room's
-- peers in its list, and ends where the room does; no access faults and no loop runs out of fuel.
pub main-Shows :
    (libc : Libc) (k : ℕ) (setup : Setup) (lines : List Bytes) (rest : List Received)
    → Allocates libc
    → Started setup
    → length rest < k
    → Shows
        (libc.malloc [])
        zero_addr
        (room_run libc rest [] [])
        (main libc k setup lines rest (world [] []))
unfolding main main_loop linklist_create alloc
main-Shows libc k setup lines rest alloc_ok up fuel =
    rw (up.args, up.socket, up.bind, up.fork, not-null (libc.malloc []) (alloc_ok []).0)
      (serve-Shows libc alloc_ok k (libc.malloc []) zero_addr rest _ [] []
        ((alloc_ok []).0, rw read-write (ground arith), refl, tt) (omega arith))
