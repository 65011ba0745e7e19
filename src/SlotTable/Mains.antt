-- ===== src/SlotTable/Mains.antt =====
-- `main` of t1s.c and of s.c: the calls before the accept loop, and the loop. Each round is what `accept`
-- returns and the table then, which the threads change between the rounds.
use git.Base.{ℕ, Bool, not, Option, none, some, List, [], ◌∷◌, if◌then◌else◌}
use git.Base.Bytes.{Bytes, codes}
use git.Io.{Action, print, running, ended, crashed, Trace, trace, after}
use git.SlotTable.Table.{Table, Placed, t1s_round, s_round}

-- A client that is placed is announced.
unfoldable pub announce : Bytes → Option ℕ → List Action
announce line none = []
announce line (some i) = print line ∷ []

-- What a round does, and the rounds after it: a failed `accept` ends the program, a write outside the
-- table would crash it.
unfoldable pub then_round : Bytes → Trace → Option (Option Placed) → Trace → Trace
then_round line failure none more = failure
then_round line failure (some none) more = trace [] crashed
then_round line failure (some (some p)) more = after p.acts (after (announce line p.thread) more)

-- `while(1)` of t1s.c; `full` is its message for a full room.
unfoldable t1s_loop : Bytes → List (Option ℕ × Table) → Trace
t1s_loop full [] = trace [] running
t1s_loop full ((clifd, t) ∷ rest) =
    then_round (codes "id") (trace (print (codes "busy") ∷ []) (ended 255)) (t1s_round full clifd t)
      (t1s_loop full rest)

-- The result of `listen` is not looked at.
unfoldable t1s_main : Bool → Bool → Bytes → List (Option ℕ × Table) → Trace
t1s_main socket_ok bind_ok full rounds =
    if not socket_ok
    then trace (print (codes "socket") ∷ []) (ended 255)
    else if not bind_ok
    then trace (print (codes "bind") ∷ []) (ended 255)
    else t1s_loop full rounds

-- `while (1)` of s.c
unfoldable s_loop : List (Option ℕ × Table) → Trace
s_loop [] = trace [] running
s_loop ((clientfd, t) ∷ rest) =
    then_round (codes "get a new client") (trace (print (codes "listen error") ∷ []) (ended 1))
      (s_round clientfd t) (s_loop rest)

unfoldable s_main : Bool → Bool → Bool → List (Option ℕ × Table) → Trace
s_main socket_ok bind_ok listen_ok rounds =
    if not socket_ok
    then trace (print (codes "socket") ∷ []) (ended 1)
    else if not bind_ok
    then trace (print (codes "bind") ∷ []) (ended 1)
    else if not listen_ok
    then trace (print (codes "listen") ∷ []) (ended 1)
    else s_loop rounds
