-- ===== src/UdpChat/Examples.antt =====
-- A room at concrete peers: the theorems of UdpChat at inputs that meet their hypotheses, and tests.
use git.Base.{
  ℕ, ◌+◌, ◌≤◌, ◌≡◌, refl, true, none, some, List, [], ◌∷◌, ◌++◌, replicate, ◌==◌, ltb, not,
  if◌then◌else◌, arith,
}
use git.Base.Bytes.{codes, strncmp_eq}
use git.Io.{ended, crashed}
use git.UdpChat.Client.{client_main, parent_loop, fgets}
use git.UdpChat.Hearing.{msgs_to, heard, serve-heard}
use git.Base.Bytes.{no_nul}
use git.Base.Typing.{no_newline}
use git.UdpChat.Conversation.{user, seen, datagrams, user-seen}
use mathlib.Core.List.{map}
use git.UdpChat.Heap.{SockAddr, memcmp_eq, Msg, Ptr, node, Heap, read, Datagram, world, ok}
use git.UdpChat.Server.{
  Libc, Received, datagram, failed, Setup, parent, zero_addr, process_broadcast, process_quit,
  serve, main, child,
}
use git.UdpChat.Chain.{Cells, addrs, Chain}
use git.UdpChat.Broadcast.{others, deliver}
use git.UdpChat.Quit.{Unlinked, Settles, process_quit-Unlinked}
use git.UdpChat.Login.{Allocates}
use git.UdpChat.Room.{room_run}
use git.UdpChat.Session.{Shows, Started, main-Shows}
use git.UdpChat.Deliveries.{count_to, count_peer, Sent, serve-quit-silent, process_broadcast-count}

abbrev max : ℕ → ℕ → ℕ
max a b = if ltb a b then b else a

top : Heap → Ptr
top [] = 0
top ((q, _) ∷ h) = max q (top h)

read_above : (h : Heap) (p : Ptr) → top h + 1 ≤ p → read h p ≡ none
unfolding top read
read_above [] p above = refl
read_above ((q, c) ∷ h) p above = ground (arith, read_above h p)

-- Memory without end, and a socket that takes all but messages to port 9.
abbrev libc : Libc
libc = record { malloc = λ h. top h + 1; accepts = λ log d. not (d.to.port == 9) }

abbrev open_libc : Libc
open_libc = record { malloc = λ h. top h + 1; accepts = λ log d. true }

libc-Allocates : Allocates libc
libc-Allocates h = (omega arith, read_above h (top h + 1) (omega arith))

abbrev peer : ℕ → SockAddr
peer port = record { family = 2; port = port; addr = 0x7f000001; pad = 0 }

abbrev msg : ℕ → Msg
msg type = record { type = type; name = codes "li"; text = codes "hi" }

-- The head at 1, and peers 5 and 6, of which 5 has logged in twice.
abbrev cells : Cells
cells = (2, peer 5) ∷ (3, peer 6) ∷ (4, peer 5) ∷ []

abbrev heap : Heap
heap =
    (1, some (node zero_addr 2))
    ∷ (2, some (node (peer 5) 3))
    ∷ (3, some (node (peer 6) 4))
    ∷ (4, some (node (peer 5) 0))
    ∷ []

heap-Chain : Chain heap ((1, zero_addr) ∷ cells)
unfolding read
heap-Chain = (
  omega arith,
  refl,
  refl,
  (omega arith, refl, refl, (omega arith, refl, refl, (omega arith, refl, refl, tt))),
)

abbrev setup : Setup
setup = record { argc = 3; server_addr = peer 1; socket_ok = true; bind_ok = true; fork = parent }

setup-Started : Started setup
setup-Started = record { args = refl; socket = refl; bind = refl; fork = refl }

abbrev traffic : List Received
traffic =
    datagram (msg b'L') (peer 5)
    ∷ datagram (msg b'L') (peer 6)
    ∷ datagram (msg b'Q') (peer 5)
    ∷ datagram (msg b'B') (peer 6)
    ∷ failed
    ∷ []

main-Shows_example :
    Shows
      (libc.malloc [])
      zero_addr
      (room_run libc traffic [] [])
      (main libc 9 setup [] traffic (world [] []))
main-Shows_example = main-Shows libc 9 setup [] traffic libc-Allocates setup-Started (omega arith)

process_quit-Unlinked_example :
    Settles
      (Unlinked (peer 5) heap 1 zero_addr cells)
      (deliver libc (msg b'Q') (others (peer 5) (addrs cells)) [])
      (process_quit libc 4 1 (msg b'Q') (peer 5) (world heap []))
process_quit-Unlinked_example =
    process_quit-Unlinked libc (msg b'Q') (peer 5) 4 heap [] 1 zero_addr cells heap-Chain
      (omega arith)

serve-quit-silent_example :
    Sent
      (λ l. count_to (peer 5) l ≡ count_to (peer 5) [])
      (serve libc 9 1
        (datagram (msg b'Q') (peer 5) ∷ datagram (msg b'B') (peer 6) ∷ [])
        (world heap []))
serve-quit-silent_example =
    serve-quit-silent libc 9 1 zero_addr (peer 5) heap [] cells (msg b'Q')
      (datagram (msg b'B') (peer 6) ∷ []) libc-Allocates heap-Chain (omega arith) refl (refl, tt)

process_broadcast-count_example :
    (after : List Datagram) × (process_broadcast open_libc 4 1 (msg b'B') (peer 6) (world heap [])
      ≡ ok tt (world heap after))
    × ((a : SockAddr)
        → count_to a after
          ≡ count_to a [] + (if memcmp_eq (peer 6) a then 0 else count_peer a (addrs cells)))
process_broadcast-count_example =
    process_broadcast-count open_libc 4 1 zero_addr (peer 6) heap [] cells (msg b'B') (λ l d. refl)
      heap-Chain (omega arith)

open_libc-Allocates : Allocates open_libc
open_libc-Allocates h = (omega arith, read_above h (top h + 1) (omega arith))

serve-heard_example :
    Sent
      (λ l.
        msgs_to (peer 6) l
        ≡ heard (peer 6) (datagram (msg b'B') (peer 5) ∷ datagram (msg b'L') (peer 8) ∷ []))
      (serve open_libc 9 1
        (datagram (msg b'B') (peer 5) ∷ datagram (msg b'L') (peer 8) ∷ [])
        (world heap []))
unfolding count_peer memcmp_eq msgs_to
serve-heard_example =
    serve-heard open_libc 9 1 zero_addr (peer 6) heap [] cells
      (datagram (msg b'B') (peer 5) ∷ datagram (msg b'L') (peer 8) ∷ []) open_libc-Allocates
      (λ l d. refl) heap-Chain (omega arith) refl (refl, (refl, tt))

user-seen_example :
    ((client_main
        (user (msg 0) (codes "ann") (codes "hi" ∷ codes "so" ∷ []) (codes "quit"))
        child).status
      ≡ ended 0)
    × ((client_main
          (user (msg 0) (codes "ann") (codes "hi" ∷ codes "so" ∷ []) (codes "quit"))
          child).killed
        ≡ true)
    × Sent
        (λ l.
          (parent_loop (map some (msgs_to (peer 6) l))).printed
          ≡ codes "ann login" ∷ seen (codes "ann") (codes "hi" ∷ codes "so" ∷ []))
        (serve open_libc 9 1
          (datagrams
            (peer 7)
            (client_main
              (user (msg 0) (codes "ann") (codes "hi" ∷ codes "so" ∷ []) (codes "quit"))
              child).sent)
          (world heap []))
unfolding count_peer memcmp_eq strncmp_eq no_nul no_newline
user-seen_example =
    user-seen open_libc 9 1 zero_addr (peer 7) (peer 6) heap cells (msg 0) (codes "ann")
      (codes "quit") (codes "hi" ∷ codes "so" ∷ []) open_libc-Allocates (λ l d. refl) heap-Chain
      (omega arith) refl refl (refl, refl, omega arith)
      ((refl, refl, omega arith), ((refl, refl, omega arith), ((refl, refl, omega arith), tt)))
      (refl, (refl, tt)) refl

-- A name of 32 bytes and its newline do not fit.
long_name :
    (client_main
      (record (user (msg 0) [] [] []) { name_line = some (replicate 32 b'a' ++ (10 ∷ [])) })
      child).status
    ≡ crashed
unfolding client_main fgets
long_name = refl
