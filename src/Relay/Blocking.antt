-- ===== src/Relay/Blocking.antt =====
-- tidpid/admin1.c, which waits for an answer to each line that is typed.
use git.Base.{Option, none, some, List, [], ◌∷◌, ◌++◌, if◌then◌else◌, ltb, length}
use git.Base.Bytes.{Bytes, c_str}
use git.Io.{print, send, close, running, ended, stuck, crashed, Trace, trace, after}
use git.Relay.Loop.{Line, rfd, wfd, fgets, is_exit}

-- `while(1)`: the line typed, and what `read` gives into the cleared `r` (nothing if it fails, or at the
-- end of the FIFO); `none` is a `read` that nothing ever answers. `r` has 1024 bytes.
unfoldable pub blocking_loop : List (Line × Option Bytes) → Bytes → Trace
blocking_loop [] s = trace [] running
blocking_loop ((typed, answer) ∷ rest) s =
    let s' = fgets typed s in
    let more = blocking_loop rest s' in
    after (send wfd s' ∷ []) (elim answer [
      | none ↦ trace [] stuck
      | some r ↦
          if ltb (length (c_str r)) 1024
          then after (print (c_str r ++ (10 ∷ [])) ∷ [])
              (if is_exit s' then trace (close rfd ∷ close wfd ∷ []) (ended 0) else more)
          else trace [] crashed
    ])

-- `main`; `s` is what the buffer holds at first.
unfoldable admin1 : List (Line × Option Bytes) → Bytes → Trace
admin1 rounds s = blocking_loop rounds s
