-- ===== src/SelectChat/Loop.antt =====
-- The `select` loops of 95s.c and 95c.c, and what each `main` does before them.

use git.Base.{
  ℕ, Bool, true, false, not, Option, none, some, List, [], ◌∷◌, ◌++◌, ◌==◌, if◌then◌else◌, ltb,
  length,
}
use git.Base.Bytes.{Bytes, codes, c_str, chop, strncmp_eq}
use git.Io.{Action, print, send, close, Status, running, ended, crashed, Trace, trace, after}

-- `#define MAXDATASIZE 256`, also the size of every buffer.
abbrev pub max_data_size : ℕ
max_data_size = 256

-- `fgets`: a line, or NULL, which leaves `send_str` as it is.
pub data Line : Type 0 where
  line : Bytes → Line
  end_of_file : Line

pub data Received : Type 0 where
  bytes : Bytes → Received  -- at least one
  finished : Received  -- 0: the peer has closed
  failed : Received  -- -1

-- What `select` finds ready, and what is then read.
pub record Ready : Type 0 where
  pub typed : Option Line
  pub received : Option Received
  pub exception : Bool

pub data Round : Type 0 where
  timeout : Round
  error : Round
  ready : Ready → Round

-- The connection, what is closed when standard input says "quit" or the peer is gone, what is closed
-- on an exception, and what is printed of a message.
pub record Style : Type 0 where
  pub peer : ℕ
  pub closes : List Action
  pub exception_closes : List Action
  pub shows : Bytes → List Action

-- What a branch of a round does: the actions, and `running` if the round goes on.
pub record Branch : Type 0 where
  pub acts : List Action
  pub status : Status

abbrev pub branch : List Action → Status → Branch
branch acts status = record { acts = acts; status = status }

unfoldable pub fgets : Line → Bytes → Bytes
fgets (line l) str = l
fgets end_of_file str = str

-- `send_str` after `fgets` and the cut of its last byte.
unfoldable pub edit : Option Line → Bytes → Bytes
unfolding fgets
edit none str = str
edit (some l) str = chop (fgets l str)

-- `FD_ISSET(STDIN, &rfd_set)`; the cut of an empty text writes before the buffer.
unfoldable pub on_typed : Style → Option Line → Bytes → Branch
unfolding fgets
on_typed style none str = branch [] running
on_typed style (some l) str =
    if length (fgets l str) == 0
    then branch [] crashed
    else if strncmp_eq 4 (codes "quit") (chop (fgets l str))
    then branch style.closes (ended 0)
    else branch (send style.peer (chop (fgets l str)) ∷ []) running

-- `FD_ISSET(..., &rfd_set)`: `buf[recvbytes] = '\0'` is in the buffer for 1 to 255 bytes.
unfoldable pub on_received : Style → Option Received → Branch
on_received style none = branch [] running
on_received style (some finished) = branch style.closes (ended 0)
on_received style (some failed) = branch [] crashed
on_received style (some (bytes b)) =
    if ltb (length b) max_data_size
    then branch (style.shows (c_str b)) running
    else branch [] crashed

unfoldable pub on_exception : Style → Bool → Branch
on_exception style false = branch [] running
on_exception style true = branch style.exception_closes (ended 0)

-- One branch, and the next if the first goes on.
unfoldable pub then_branch : Branch → Trace → Trace
then_branch b next = after b.acts (elim b.status [ running ↦ next | other ↦ trace [] other ])

unfoldable pub chat_loop : Style → List Round → Bytes → Trace
chat_loop style [] str = trace [] running
chat_loop style (timeout ∷ rest) str = chat_loop style rest str
chat_loop style (error ∷ rest) str = trace (print (codes "select  error:") ∷ []) (ended 1)
chat_loop style (ready r ∷ rest) str =
    let more = chat_loop style rest (edit r.typed str) in
    then_branch (on_typed style r.typed str) (
      then_branch (on_received style r.received)
        (then_branch (on_exception style r.exception) more))

abbrev pub sockfd : ℕ
sockfd = 3

abbrev pub client_fd : ℕ
client_fd = 4

-- 95s.c; `name` is what the client has sent first.
abbrev pub server_style : Bytes → Style
server_style name = record {
  peer = client_fd;
  closes = close client_fd ∷ close sockfd ∷ [];
  exception_closes = close client_fd ∷ [];
  shows = λ b. print (name ++ (b':' ∷ (b ++ (10 ∷ [])))) ∷ print (codes "server: ") ∷ [];
}

-- 95c.c; `name` is what its user has typed first.
abbrev pub client_style : Bytes → Style
client_style name = record {
  peer = sockfd;
  closes = close sockfd ∷ [];
  exception_closes = close sockfd ∷ [];
  shows = λ b.
      print (codes "server: " ++ (b ++ (10 ∷ []))) ∷ print (name ++ (codes ": " ++ (10 ∷ []))) ∷ [];
}

-- What the calls before the loop of 95s.c return.
pub record ServerSetup : Type 0 where
  pub socket_ok : Bool
  pub bind_ok : Bool
  pub listen_ok : Bool
  pub accept_ok : Bool
  pub name : Received
  pub file_ok : Bool

-- `buff[recvbytes] = '\0'`
unfoldable pub first_name : Received → Option Bytes
first_name (bytes b) = if ltb (length b) max_data_size then some (c_str b) else none
first_name finished = some []
first_name failed = none

-- The name goes to the file name.txt, shown here as a print.
unfoldable pub server_main : ServerSetup → List Round → Trace
server_main s rounds =
    if not s.socket_ok
    then trace (print (codes "socket") ∷ []) (ended 1)
    else if not s.bind_ok
    then trace (print (codes "bind") ∷ []) (ended 1)
    else if not s.listen_ok
    then trace (print (codes "listen") ∷ []) (ended 1)
    else if not s.accept_ok
    then trace (print (codes "accept") ∷ []) (ended 1)
    else elim (first_name s.name) [
      | none ↦ trace [] crashed
      | some name ↦
          if not s.file_ok
          then trace (print (codes "cannot open file, exit....") ∷ []) (ended 255)
          else after (print name ∷ []) (chat_loop (server_style name) rounds [])
    ]

unfoldable pub client_main : Bool → Bool → Bytes → List Round → Trace
client_main socket_ok connect_ok name rounds =
    if not socket_ok
    then trace (print (codes "socket") ∷ []) (ended 1)
    else if not connect_ok
    then trace (print (codes "connect") ∷ []) (ended 1)
    else after
        (print (codes "enter your name first:")
          ∷ print (name ++ codes ": ")
          ∷ send sockfd name
          ∷ [])
        (chat_loop (client_style name) rounds [])
