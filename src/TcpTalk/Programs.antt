-- ===== src/TcpTalk/Programs.antt =====
-- The loops of the client and of the two servers. What `read` and `fgets` give is an argument of each
-- round; `none` is a `read` that fails and an `fgets` that returns NULL. A `read` gives at most 1024
-- bytes, and `fgets` a text of at most 1023. Newlines are left out of what is printed.
use git.Base.{
  ℕ, ◌+◌, Bool, not, ◌&&◌, Option, none, some, List, [], ◌∷◌, ◌++◌, ◌==◌, if◌then◌else◌, ltb, leb,
  length, drop, set, replicate,
}
use mathlib.Core.List.{map}
use git.Base.Bytes.{cut_text, Bytes, codes, c_str, strncmp_eq, decimal, write_text}
use git.Io.{print, send, close, running, ended, crashed, Trace, trace, after}

abbrev pub buf_size : ℕ
buf_size = 1024

unfoldable pub to_lower : ℕ → ℕ
to_lower x = if leb b'A' x && leb x b'Z' then x + 32 else x

-- `strncasecmp(a, b, n) == 0`
unfoldable pub strncasecmp_eq : ℕ → Bytes → Bytes → Bool
strncasecmp_eq n a b = strncmp_eq n (map to_lower a) (map to_lower b)

unfoldable pub is_quit : Bytes → Bool
is_quit str = strncasecmp_eq 4 str (codes "quit")

-- `buf[strlen(buf)-1]='\0'`; `none` is the write before the buffer that an empty text leads to.
unfoldable pub cut : Bytes → Option Bytes
cut buf = elim (c_str buf) [ [] ↦ none | x ∷ text ↦ some (set buf (length text) 0) ]

-- The client's `buf` is not cleared between the calls.
unfoldable pub fgets_into : Option Bytes → Bytes → Bytes
fgets_into none buf = buf
fgets_into (some line) buf = write_text line buf

unfoldable pub read_into : Option Bytes → Bytes → Bytes
read_into none buf = buf
read_into (some b) buf = b ++ drop (length b) buf

abbrev pub sock : ℕ
sock = 3

-- The loop of c.c: each round is the line typed and the answer. A buffer with no NUL is read past
-- its end by `%s`.
unfoldable pub client_loop : Bytes → List (Option Bytes × Option Bytes) → Trace
client_loop buf [] = trace [] running
client_loop buf ((typed, reply) ∷ rest) = elim (cut (fgets_into typed buf)) [
  | none ↦ trace (print (codes "client:") ∷ []) crashed
  | some buf' ↦
      let received = read_into reply buf' in
      let more = client_loop received rest in
      after (print (codes "client:") ∷ send sock buf' ∷ []) (
        if is_quit (c_str buf')
        then trace (print (codes "quit") ∷ close sock ∷ []) (ended 0)
        else if ltb (length (c_str received)) buf_size
        then after (print (codes "wait..") ∷ print (codes "server:" ++ c_str received) ∷ []) more
        else trace (print (codes "wait..") ∷ []) crashed)
]

-- `main` of c.c
unfoldable pub client_main : ℕ → Bool → List (Option Bytes × Option Bytes) → Trace
client_main argc connected rounds =
    if not (argc == 3)
    then trace (print (codes "use:<ip> [port]") ∷ []) (ended 1)
    else if not connected
    then trace (print (codes "connect()") ∷ []) (ended 1)
    else after (print (codes "connect success") ∷ []) (client_loop (replicate buf_size 0) rounds)

-- What a buffer of NULs holds after `read` and after `fgets`.
abbrev pub text_of : Option Bytes → Bytes
text_of none = []
text_of (some b) = c_str b

-- `while(1)` of `fun` in s1.c and of the child in s.c, with what follows `break`. `buf` is cleared
-- before `read` and before `fgets`.
unfoldable pub talk : ℕ → Trace → List (Option Bytes × Option Bytes) → Trace
talk fd quit [] = trace [] running
talk fd quit ((got, typed) ∷ rest) =
    let more = talk fd quit rest in
    if ltb (length (text_of got)) buf_size
    then after
        (print (codes "client " ++ decimal fd ++ (b':' ∷ text_of got))
          ∷ print (codes "server:")
          ∷ [])
        (elim (cut_text (text_of typed)) [
          | none ↦ trace [] crashed
          | some str ↦
              if is_quit str
              then after (print (codes "quit") ∷ []) quit
              else after (send fd (str ++ (0 ∷ [])) ∷ print (codes "wait...") ∷ []) more
        ])
    else trace [] crashed

-- `fun` of s1.c, a thread; `client_sock` is what its argument points to when it starts.
unfoldable pub fun : ℕ → List (Option Bytes × Option Bytes) → Trace
fun client_sock rounds = talk client_sock (trace (close client_sock ∷ []) (ended 0)) rounds

abbrev pub listener : ℕ
listener = 3

-- The child of s.c, where `fork` has returned 0: `close(fd)` closes descriptor 0, and the `accept`
-- that follows, on the socket closed before, fails.
unfoldable pub child : ℕ → List (Option Bytes × Option Bytes) → Trace
child client_sock rounds =
    after (close listener ∷ [])
      (talk client_sock (trace (close 0 ∷ print (codes "accept()") ∷ []) (ended 3)) rounds)

-- What `fork` returns for a client: an error, the child's number in the parent, or 0 in the child,
-- which then goes through its own rounds.
pub data Forked : Type 0 where
  fork_failed : Forked
  in_parent : ℕ → Forked
  in_child : List (Option Bytes × Option Bytes) → Forked

-- `for(;;)` of s.c: each client is its socket, its address as printed, and the `fork`; `none` is an
-- `accept` that fails.
unfoldable pub accept_loop : List (Option (ℕ × Bytes × Forked)) → Trace
accept_loop [] = trace [] running
accept_loop (none ∷ rest) = trace (print (codes "accept()") ∷ []) (ended 3)
accept_loop (some (fd, peer, fork_failed) ∷ rest) =
    after (print (codes "get a new client " ++ peer) ∷ print (codes "fork()") ∷ [])
      (accept_loop rest)
accept_loop (some (fd, peer, in_parent pid) ∷ rest) =
    after (print (codes "get a new client " ++ peer) ∷ close pid ∷ []) (accept_loop rest)
accept_loop (some (fd, peer, in_child rounds) ∷ rest) =
    after (print (codes "get a new client " ++ peer) ∷ []) (child fd rounds)

-- `main` of s.c; a `socket` that fails is only reported.
unfoldable pub server_main : Bool → Bool → Bool → List (Option (ℕ × Bytes × Forked)) → Trace
server_main socket_ok bind_ok listen_ok clients =
    after (if socket_ok then [] else print (codes "socket()") ∷ []) (
      if not bind_ok
      then trace (print (codes "bind()") ∷ close listener ∷ []) (ended 1)
      else if not listen_ok
      then trace (print (codes "listen()") ∷ close listener ∷ []) (ended 2)
      else after (print (codes "success") ∷ []) (accept_loop clients))
