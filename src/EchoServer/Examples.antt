-- ===== src/EchoServer/Examples.antt =====
-- Two clients of the echo server.
use git.Base.{◌≡◌, refl, none, some, [], ◌∷◌, ◌++◌}
use mathlib.Core.List.{map}
use git.Base.Bytes.{codes, no_nul}
use git.Io.{ended, sent_to}
use git.EchoServer.Programs.{newsock, echo_loop}
use git.EchoServer.Serving.{joined, echo_loop-joined}

echo_loop-joined_example :
    (joined
        (sent_to newsock (echo_loop (map some (codes "hel" ∷ codes "lo" ∷ []) ++ (none ∷ []))).acts)
      ≡ joined (codes "hel" ∷ codes "lo" ∷ []))
    × ((echo_loop (map some (codes "hel" ∷ codes "lo" ∷ []) ++ (none ∷ []))).status ≡ ended 1)
echo_loop-joined_example =
    echo_loop-joined (codes "hel" ∷ codes "lo" ∷ []) []
      (unfold no_nul in refl, (unfold no_nul in refl, tt))
