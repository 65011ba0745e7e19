-- ===== src/Procon/Admin.antt =====
-- tidpid/admin1.c and tidpid/procon1.c over their two FIFOs. admin1.c writes a line and waits for an
-- answer, so procon1.c gets one line in each `read`. A `read` of admin1.c takes all that procon1.c has
-- written for the line; what it would take if that came in parts is not modelled.
use git.Base.{ℕ, Bool, Option, none, some, List, [], ◌∷◌, ◌++◌}
use git.Base.Bytes.{Bytes}
use git.Io.{Status, running, ended, stuck, crashed, sent_to}
use git.Relay.Loop.{Line, line}
use git.Procon.Commands.{wfd, Server, Request, command1, execute1}

abbrev pub joined : List Bytes → Bytes
joined [] = []
joined (b ∷ bs) = b ++ joined bs

-- What a `read` of admin1.c gives after what procon1.c has written, as that goes on, or waits, or has
-- ended, which closes the FIFO; `none` waits for ever.
unfoldable pub heard : Status → List Bytes → Option Bytes
heard running [] = none
heard stuck [] = none
heard (ended code) [] = some []
heard crashed [] = some []
heard status (b ∷ bs) = some (joined (b ∷ bs))

-- Nothing answers the lines that come after the end of procon1.c.
abbrev unanswered : List Request → List (Line × Option Bytes)
unanswered [] = []
unanswered (r ∷ rest) = (line r.str, none) ∷ unanswered rest

module _ (key_delete : ℕ → Bool) where
  -- The rounds of admin1.c, when the lines of the requests are typed.
  unfoldable pub rounds : List Request → Server → List (Line × Option Bytes)
  rounds [] s = []
  rounds (r ∷ rest) s =
      let d = execute1 key_delete r (command1 r.str) s in
      let more = rounds rest d.server in
      (line r.str, heard d.status (sent_to wfd d.acts))
      ∷ elim d.status [ running ↦ more | other ↦ unanswered rest ]
