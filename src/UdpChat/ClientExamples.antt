-- ===== src/UdpChat/ClientExamples.antt =====
-- A client that says two lines and leaves.
use git.Base.{◌≡◌, refl, true, Option, some, [], ◌∷◌, ◌++◌}
use git.Base.Bytes.{Bytes, codes, strncmp_eq, cut_text, chop}
use git.UdpChat.Server.{child}
use git.UdpChat.Client.{Setup, message, fgets, child_loop, processes, client_main}
use git.UdpChat.Protocol.{Protocol, client_main-Protocol}

abbrev line : Bytes → Option Bytes
line b = some (b ++ (10 ∷ []))

abbrev setup : Setup
setup = record {
  argc = 3;
  stale = message 0 [] [];
  socket_ok = true;
  name_line = line (codes "ann");
  login_ok = true;
  rounds = (line (codes "hi"), true) ∷ (line (codes "quit now"), true) ∷ [];
  received = [];
}

client_main-Protocol_example :
    Protocol (client_main setup child).sent (client_main setup child).killed
client_main-Protocol_example = client_main-Protocol setup child

sends_three :
    (client_main setup child).sent
    ≡ message b'L' (codes "ann") []
      ∷ message b'B' (codes "ann") (codes "hi")
      ∷ message b'Q' (codes "ann") (codes "quit now")
      ∷ []
unfolding client_main processes child_loop fgets strncmp_eq cut_text chop
sends_three = refl
