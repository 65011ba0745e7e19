-- ===== src/EchoServer/Programs.antt =====
-- `startup`, the child's loop and `main`. The results of the calls are arguments. A `read` gives at
-- most 1023 bytes, none at the end of the stream; `none` is a `read` that fails.
-- The client's address and the newlines are left out of what is printed. A `write` succeeds.
use git.Base.{ℕ, Bool, not, Option, none, some, List, [], ◌∷◌, ◌++◌, ◌==◌, if◌then◌else◌}
use git.Base.Bytes.{Bytes, codes, c_str}
use git.Io.{Action, print, send, close, running, ended, stuck, crashed, Trace, trace, after}

-- What `startup` comes to: `exit`, or the number that it returns.
pub data Started : Type 0 where
  exited : ℕ → Started
  returned : ℕ → Started

-- The numbers that `socket` and `accept` return, each alone.
abbrev pub sock : ℕ
sock = 3

abbrev pub newsock : ℕ
newsock = 4

unfoldable pub startup : Bool → Bool → Bool → List Action × Started
startup socket_ok bind_ok listen_ok =
    if not socket_ok
    then (print (codes "socket") ∷ [], returned 1)
    else if not bind_ok
    then (print (codes "bind") ∷ [], exited 3)
    else if not listen_ok
    then (print (codes "listen") ∷ [], returned sock)
    else ([], returned sock)

-- `while(1)` of the child, and the calls behind it.
unfoldable pub echo_loop : List (Option Bytes) → Trace
echo_loop [] = trace [] running
echo_loop (none ∷ reads) = trace (close newsock ∷ []) (ended 1)
echo_loop (some [] ∷ reads) = after (print (codes "client quit") ∷ []) (echo_loop reads)
echo_loop (some (x ∷ b) ∷ reads) =
    after (print (codes "client# " ++ c_str (x ∷ b)) ∷ send newsock (c_str (x ∷ b)) ∷ [])
      (echo_loop reads)

-- A round of `main`: an `accept` that fails, a `fork` that fails, or a child and what its `read`s give.
pub data Round : Type 0 where
  not_accepted : Round
  not_forked : Round
  served : List (Option Bytes) → Round

-- What the parent and its children do, in order. After `waitpid` the parent goes on with `more` if
-- the child has ended (a signal that kills it counts), and waits for ever if it runs for ever.
unfoldable pub wait_for : Trace → Trace → Trace
wait_for child more = elim child.status [
  | running ↦ child
  | stuck ↦ trace child.acts stuck
  | crashed ↦ after child.acts more
  | ended n ↦ after child.acts more
]

-- `while(1)` of `main`. The child closes its copy of the listening socket, the parent its copy of
-- `newsock`; those two calls are left out, as descriptors of other processes stay open.
unfoldable pub accept_loop : List Round → Trace
accept_loop [] = trace [] running
accept_loop (not_accepted ∷ rest) = after (print (codes "accept") ∷ []) (accept_loop rest)
accept_loop (not_forked ∷ rest) =
    trace (print (codes "get a new client") ∷ print (codes "fork") ∷ close newsock ∷ []) (ended 1)
accept_loop (served reads ∷ rest) =
    after (print (codes "get a new client") ∷ []) (wait_for (echo_loop reads) (accept_loop rest))

unfoldable pub main : ℕ → Bool → Bool → Bool → List Round → Trace
main argc socket_ok bind_ok listen_ok rounds =
    let (acts, started) = startup socket_ok bind_ok listen_ok in
    if not (argc == 3)
    then trace (print (codes "[local_ip], [local_port]") ∷ []) (ended 2)
    else after acts (elim started [
      | exited n ↦ trace [] (ended n)
      | returned listen_sock ↦ after (print (codes "sock:") ∷ []) (accept_loop rounds)
    ])
