-- ===== src/UdpFile/Examples.antt =====
-- The round trip at three short lines.
use git.Base.{◌≡◌, refl, true, [], ◌∷◌, replicate, arith}
use mathlib.Core.List.{map}
use git.Base.Bytes.{no_nul, c_str, strncmp_eq, write_text, codes}
use git.Io.{ended, Trace, trace, sent_to}
use git.UdpFile.Programs.{receive_loop, sockfd, line, client_main, server_main, datagram}
use git.UdpFile.RoundTrip.{prints, client-server}
use git.UdpFile.Words.{word_loop}
use git.UdpFile.WordStream.{IsWord, typed}

abbrev client : Trace
client =
    client_main true true ((line (codes "ab"), true), (line (codes "stop"), true), (line [], true))
      true [] (replicate 80 7)

client-server_example :
    (server_main true true (map datagram (sent_to sockfd client.acts))
      ≡ trace (prints 0 (codes "ab" ∷ codes "stop" ∷ [] ∷ [])) (ended 0))
    × (client.status ≡ ended 0)
unfolding no_nul
client-server_example =
    client-server (codes "ab") (codes "stop") [] [] (replicate 80 7) refl refl refl (omega arith)
      (omega arith) (omega arith) refl

hi-IsWord : IsWord (codes "hi")
unfolding no_nul strncmp_eq
hi-IsWord = record { whole = refl; fits = omega arith; goes_on = refl; not_s = refl }

-- A word that begins with an s ends the server.
an_s_ends :
    (server_main true true (
      map datagram (
        sent_to sockfd
          (word_loop (typed (codes "so" ∷ codes "hi" ∷ [])) (replicate 30 0)).acts))).status
    ≡ ended 0
unfolding server_main receive_loop word_loop sent_to write_text c_str strncmp_eq
an_s_ends = refl
