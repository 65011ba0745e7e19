-- ===== src/UdpChat/Heap.antt =====
-- The memory and the socket of socket/s.c: list nodes at addresses, and datagrams sent.
use git.Base.{
  ℕ, ◌≡◌, Bool, true, ◌&&◌, Option, none, some, List, [], ◌∷◌, ◌==◌, if◌then◌else◌, ◌↔◌, arith,
}
use git.Base.Bytes.{Bytes}

-- `struct sockaddr_in`
pub record SockAddr : Type 0 where
  pub family : ℕ
  pub port : ℕ
  pub addr : ℕ
  pub pad : ℕ  -- sin_zero

-- `memcmp(&a, &b, sizeof(a)) == 0`: every byte of the two structures is the same.
unfoldable pub memcmp_eq : SockAddr → SockAddr → Bool
memcmp_eq a b = (a.family == b.family && a.port == b.port) && (a.addr == b.addr && a.pad == b.pad)

pub memcmp_eq_iff : (a b : SockAddr) → (memcmp_eq a b ≡ true) ↔ (a ≡ b)
unfolding memcmp_eq
memcmp_eq_iff a b = ground arith

-- `MSG`
pub record Msg : Type 0 where
  pub type : ℕ
  pub name : Bytes
  pub text : Bytes

abbrev pub Ptr : Type 0
Ptr = ℕ

abbrev pub null : Ptr
null = 0

-- `listnode`
pub record ListNode : Type 0 where
  pub addr : SockAddr
  pub next : Ptr

abbrev pub node : SockAddr → Ptr → ListNode
node a n = record { addr = a; next = n }

-- The writes to memory, the newest first; `none` gives a block back.
abbrev pub Heap : Type 0
Heap = List (Ptr × Option ListNode)

unfoldable pub read : Heap → Ptr → Option ListNode
read [] p = none
read ((q, c) ∷ h) p = if p == q then c else read h p

unfoldable pub write : Heap → Ptr → Option ListNode → Heap
write h p c = (p, c) ∷ h

pub read-write :
    (h : Heap) (p q : Ptr) (c : Option ListNode)
    → read (write h p c) q ≡ (if q == p then c else read h q)
unfolding read write
read-write h p q c = ground arith

-- One `sendto`.
pub record Datagram : Type 0 where
  pub to : SockAddr
  pub msg : Msg

pub record World : Type 0 where
  pub heap : Heap
  pub sent : List Datagram

abbrev pub world : Heap → List Datagram → World
world h s = record { heap = h; sent = s }

-- `exited` is `exit(-1)`; `fault` is an access through NULL or to a block that is not allocated.
pub data Run (A : Type 0) : Type 0 where
  ok : A → World → Run A
  exited : World → Run A
  fault : Run A
  out_of_fuel : Run A

abbrev pub Cmd : Type 0 → Type 0
Cmd A = World → Run A

abbrev pub pure : {A : Type 0} → A → Cmd A
pure = ok

module _ {A B : Type 0} where
  abbrev pub then_run : Run A → (A → Cmd B) → Run B
  then_run (ok a w) k = k a w
  then_run (exited w) k = exited w
  then_run fault k = fault
  then_run out_of_fuel k = out_of_fuel

  infixl 5 ◌>>=◌ ◌>>◌
  abbrev pub ◌>>=◌ : Cmd A → (A → Cmd B) → Cmd B
  m >>= k = λ w. then_run (m w) k

  abbrev pub ◌>>◌ : Cmd A → Cmd B → Cmd B
  m >> n = m >>= λ _. n

-- `*p`
unfoldable pub load : Ptr → Cmd ListNode
load p w = if p == null then fault else elim (read w.heap p) [ none ↦ fault | some n ↦ ok n w ]

abbrev pub store : Ptr → Option ListNode → Cmd (Unit {0})
store p c w = ok tt (record w { heap = write w.heap p c })

unfoldable pub free : Ptr → Cmd (Unit {0})
free block = load block >> store block none

-- `at->next = to`
unfoldable pub set_next : Ptr → Ptr → Cmd (Unit {0})
set_next at to = load at >>= λ n. store at (some (node n.addr to))
