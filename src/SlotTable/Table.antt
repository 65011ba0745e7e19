-- ===== src/SlotTable/Table.antt =====
-- The table `clifd_p` (`client_p` in s.c), the accept loop and the thread of a client.
use git.Base.{
  ℕ, zero, suc, Bool, true, false, not, Option, none, some, List, [], ◌∷◌, ◌++◌, ◌==◌,
  if◌then◌else◌, get_elem?, set, replicate,
}
use git.Base.Bytes.{Bytes, codes, c_str}
use git.Io.{Action, send, close}

abbrev pub slots : ℕ
slots = 50

abbrev pub Table : Type 0
Table = List ℕ

-- `int clifd_p[50];`
abbrev no_clients : Table
no_clients = replicate slots 0

-- A round of the accept loop: the table, what is done, and the slot whose thread is started.
pub record Placed : Type 0 where
  pub table : Table
  pub acts : List Action
  pub thread : Option ℕ

-- `for (i = 0;i < 50;i++)` from `i`, with `n` rounds left; `none` is an access out of bounds.
unfoldable pub place_loop : Bytes → ℕ → ℕ → ℕ → Table → List Action → Option Placed
place_loop full zero i fd t acts = some (record { table = t; acts = acts; thread = none })
place_loop full (suc n) i fd t acts = elim (get_elem? t i) [
  | none ↦ none
  | some x ↦
      let next = place_loop full n (suc i) fd t in
      if x == 0
      then some (record { table = set t i fd; acts = acts; thread = some i })
      else next (if slots == i then acts ++ (send fd full ∷ close fd ∷ []) else acts)
]

unfoldable pub place : Bytes → ℕ → Table → Option Placed
place full fd t = place_loop full slots 0 fd t []

-- A round of `main`: `none` outside is a failed `accept`, on which it returns.
unfoldable pub t1s_round : Bytes → Option ℕ → Table → Option (Option Placed)
t1s_round full none t = none
t1s_round full (some clifd) t = some (place full clifd t)

unfoldable pub s_round : Option ℕ → Table → Option (Option Placed)
s_round none t = none
s_round (some clientfd) t = some (place (codes "server full,please quit" ++ (10 ∷ [])) clientfd t)

-- `for (j = 0;j < 50;j++) if (clifd_p[j] != 0) send(...)`, over what is left of the table.
unfoldable pub send_all : Table → Bytes → List Action
send_all [] msg = []
send_all (fd ∷ t) msg = if not (fd == 0) then send fd msg ∷ send_all t msg else send_all t msg

-- `for(i=0;i<50;i++) if(clifd_p[i] == index) { clifd_p[i] = 0; break; }`
unfoldable pub clear : ℕ → Table → Table
clear index [] = []
clear index (fd ∷ t) = if fd == index then 0 ∷ t else fd ∷ clear index t

-- What `recv` gives: bytes (none at the end of the stream), or -1.
pub data Received : Type 0 where
  bytes : Bytes → Received
  failed : Received

pub record Worker : Type 0 where
  pub table : Table
  pub acts : List Action
  pub alive : Bool

abbrev worker : Table → List Action → Bool → Worker
worker t acts alive = record { table = t; acts = acts; alive = alive }

-- `pthread_run` of t1s.c for the socket `index`. `char buf1[50] = {};` is made anew in every round,
-- before the sends; `recv` fills it after them. Other threads may change the table between rounds.
unfoldable pub worker_run : ℕ → List (Table × Received) → Table → Worker
worker_run index [] t = worker t [] true
worker_run index ((now, failed) ∷ rest) t =
    worker (clear index now) (send_all now (c_str (replicate 50 0))) false
worker_run index ((now, bytes b) ∷ rest) t =
    let more = worker_run index rest now in
    worker more.table (send_all now (c_str (replicate 50 0)) ++ more.acts) more.alive
