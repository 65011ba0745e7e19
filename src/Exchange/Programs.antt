-- ===== src/Exchange/Programs.antt =====
-- Both programs. Each sends more bytes than its literal has: `beyond` is what memory holds behind the
-- literal, whose NUL is counted to it. What `recv` gives and the results of the calls are arguments.
use git.Base.{
  ℕ, Bool, not, Option, none, some, List, [], ◌∷◌, ◌++◌, if◌then◌else◌, ltb, length, take,
}
use git.Base.Bytes.{Bytes, codes, c_str}
use git.Io.{print, send, close, running, ended, crashed, Trace, trace, after}

abbrev pub sockfd : ℕ
sockfd = 3

abbrev pub client_fd : ℕ
client_fd = 4

-- `#define MAXDATASIZE 30` and `#define BACKLOG 30`, the sizes of both buffers.
abbrev pub max_data_size : ℕ
max_data_size = 30

-- "收到:" in UTF-8.
abbrev pub got : Bytes
got = 0xe6 ∷ 0x94 ∷ 0xb6 ∷ 0xe5 ∷ 0x88 ∷ 0xb0 ∷ 0x3a ∷ []

-- `" I am server \n"` and `" I am zhangyi \n"`
abbrev pub server_words : Bytes
server_words = codes " I am server " ++ (10 ∷ [])

abbrev pub client_words : Bytes
client_words = codes " I am zhangyi " ++ (10 ∷ [])

-- The bytes that `send` takes from a literal of the program.
abbrev pub from_literal : ℕ → Bytes → Bytes → Bytes
from_literal n words beyond = take n (words ++ (0 ∷ beyond))

-- What the calls before the exchange give: `argc`, the host, the socket and the connection.
pub record Setup : Type 0 where
  pub argc : ℕ
  pub host_ok : Bool
  pub socket_ok : Bool
  pub connect_ok : Bool

-- `recv`, the cut, and the rest of `main` of 9-1-c.c; 30 bytes leave no place for the NUL.
unfoldable pub greet : Bytes → Option Bytes → Trace
greet beyond none = trace (print (codes "connect") ∷ []) (ended 1)
greet beyond (some b) =
    if ltb (length b) max_data_size
    then trace
        (print (got ++ c_str b)
          ∷ send sockfd (from_literal max_data_size client_words beyond)
          ∷ close sockfd
          ∷ [])
        (ended 0)
    else trace [] crashed

unfoldable pub client_main : Setup → Bytes → Option Bytes → Trace
client_main s beyond received =
    if ltb s.argc 2
    then trace (print (codes "please enter the server's hostname") ∷ []) (ended 1)
    else if not s.host_ok
    then trace (print (codes "gethostbyname error") ∷ []) (ended 1)
    else if not s.socket_ok
    then trace (print (codes "socket create error") ∷ []) (ended 1)
    else if not s.connect_ok
    then trace (print (codes "connect error") ∷ []) (ended 1)
    else greet beyond received

-- The child of 9-1-s.c: whether `send` succeeds, what `buf` held, and what `recv` gives. A buffer
-- without a NUL is read past its end by `%s`.
unfoldable pub answer : Bytes → Bool → Bytes → Trace
answer beyond ok buf =
    after
      (if ok
        then send client_fd (from_literal 26 server_words beyond) ∷ []
        else print (codes "send") ∷ [])
      (if ltb (length (c_str buf)) max_data_size
        then trace (print (got ++ c_str buf) ∷ close client_fd ∷ []) (ended 0)
        else trace [] crashed)

-- A round of `main` of 9-1-s.c: an `accept` that fails; a parent, or a `fork` that fails, which is
-- taken for one; or the child, with its `send` and its buffer after `recv`.
pub data Round : Type 0 where
  not_accepted : Round
  in_parent : Bytes → Round
  in_child : Bytes → Bool → Bytes → Round

unfoldable pub accept_loop : Bytes → List Round → Trace
accept_loop beyond [] = trace [] running
accept_loop beyond (not_accepted ∷ rest) =
    after (print (codes "accept error") ∷ []) (accept_loop beyond rest)
accept_loop beyond (in_parent peer ∷ rest) =
    after (print (codes "from:" ++ peer) ∷ close client_fd ∷ []) (accept_loop beyond rest)
accept_loop beyond (in_child peer ok buf ∷ rest) =
    after (print (codes "from:" ++ peer) ∷ []) (answer beyond ok buf)

unfoldable pub server_main : Bool → Bool → Bool → Bytes → List Round → Trace
server_main socket_ok bind_ok listen_ok beyond rounds =
    if not socket_ok
    then trace (print (codes "socket") ∷ []) (ended 1)
    else if not bind_ok
    then trace (print (codes "bind") ∷ []) (ended 1)
    else if not listen_ok
    then trace (print (codes "listen") ∷ []) (ended 1)
    else accept_loop beyond rounds
