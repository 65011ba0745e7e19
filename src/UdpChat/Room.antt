-- ===== src/UdpChat/Room.antt =====
-- What the server promises: a room of peers, and for each datagram received the deliveries to make.
use git.Base.{suc, Bool, true, false, List, [], ◌∷◌, ◌==◌, if◌then◌else◌, length, ◌≤◌, arith}
use git.UdpChat.Heap.{SockAddr, Msg, Datagram}
use git.UdpChat.Server.{Libc, Received, datagram, failed}
use git.UdpChat.Broadcast.{others, deliver, Delivery}

pub record Room : Type 0 where
  pub peers : List SockAddr  -- the latest login first
  pub log : List Datagram
  pub alive : Bool

abbrev pub room : List SockAddr → Delivery → Room
room peers d = record { peers = peers; log = d.log; alive = d.complete }

module _ (libc : Libc) where
  unfoldable pub room_step : Msg → SockAddr → List SockAddr → List Datagram → Room
  room_step msg client peers log =
      if msg.type == b'L'
      then room (client ∷ peers) (deliver libc msg (others client (client ∷ peers)) log)
      else if msg.type == b'B'
      then room peers (deliver libc msg (others client peers) log)
      else if msg.type == b'Q'
      then room (others client peers) (deliver libc msg (others client peers) log)
      else record { peers = peers; log = log; alive = true }

  unfoldable pub room_run : List Received → List SockAddr → List Datagram → Room
  room_run [] peers log = record { peers = peers; log = log; alive = true }
  room_run (failed ∷ rest) peers log = record { peers = peers; log = log; alive = false }
  room_run (datagram msg client ∷ rest) peers log =
      let r = room_step msg client peers log in
      let more = room_run rest r.peers r.log in if r.alive then more else r

length-others : (client : SockAddr) (as_ : List SockAddr) → length (others client as_) ≤ length as_
unfolding others
length-others client [] = omega arith
length-others client (a ∷ as_) = ground (arith, length-others client as_)

pub length-room_step :
    (libc : Libc) (msg : Msg) (client : SockAddr) (peers : List SockAddr) (log : List Datagram)
    → length (room_step libc msg client peers log).peers ≤ suc (length peers)
unfolding room_step
length-room_step libc msg client peers log = ground (arith, length-others client peers)
