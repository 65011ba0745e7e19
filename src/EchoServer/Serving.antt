-- ===== src/EchoServer/Serving.antt =====
-- What a client of socket/more_tcp/ps.c gets back, and what the next one waits for.
use git.Base.{◌≡◌, refl, ap, true, Option, none, some, List, [], ◌∷◌, ◌++◌}
use mathlib.Core.List.{map}
use git.Base.Bytes.{c_str-whole, Bytes, no_nul}
use git.Io.{running, ended, Trace, sent_to}
use git.EchoServer.Programs.{newsock, echo_loop, Round, served, wait_for, accept_loop}

-- The bytes of a stream that comes in pieces.
unfoldable pub joined : List Bytes → Bytes
joined [] = []
joined (b ∷ bs) = b ++ joined bs

abbrev AllWhole : List Bytes → Type 0
AllWhole [] = Unit {0}
AllWhole (b ∷ bs) = (no_nul b ≡ true) × AllWhole bs

-- In whatever pieces the stream of a client arrives, if no byte of it is NUL, the child sends back the
-- same stream; and it ends with 1 when a `read` fails.
pub echo_loop-joined :
    (pieces : List Bytes) (later : List (Option Bytes))
    → AllWhole pieces
    → let child : Trace = echo_loop (map some pieces ++ (none ∷ later)) in
      (joined (sent_to newsock child.acts) ≡ joined pieces) × (child.status ≡ ended 1)
unfolding echo_loop joined sent_to
echo_loop-joined [] later h = (refl, refl)
echo_loop-joined ([] ∷ pieces) later (w, h) = echo_loop-joined pieces later h
echo_loop-joined ((x ∷ b) ∷ pieces) later (w, h) =
    let (e, s) = echo_loop-joined pieces later h in
    (rw (c_str-whole (x ∷ b) w) (ap (λ (l : Bytes). (x ∷ b) ++ l) e), s)

echo_loop-runs : (pieces : List Bytes) → (echo_loop (map some pieces)).status ≡ running
unfolding echo_loop
echo_loop-runs [] = refl
echo_loop-runs ([] ∷ pieces) = echo_loop-runs pieces
echo_loop-runs ((x ∷ b) ∷ pieces) = echo_loop-runs pieces

-- However many `read`s a client's child makes, at the end of the stream too, it does not end while
-- none of them fails; and the parent waits for it: the connections that follow make no difference.
accept_loop-waits :
    (pieces : List Bytes) (rest : List Round)
    → (accept_loop (served (map some pieces) ∷ rest) ≡ accept_loop (served (map some pieces) ∷ []))
      × ((accept_loop (served (map some pieces) ∷ rest)).status ≡ running)
unfolding accept_loop wait_for
accept_loop-waits pieces rest = rw (wait_for, echo_loop-runs pieces) (refl, echo_loop-runs pieces)
