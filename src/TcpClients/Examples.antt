-- ===== src/TcpClients/Examples.antt =====
-- Short talks.
use git.Base.{ℕ, ◌≡◌, refl, true, some, [], ◌∷◌, ◌++◌, replicate, arith}
use mathlib.Core.List.{map}
use git.Base.Bytes.{Bytes, codes, c_str, strcmp_eq, no_nul}
use git.Io.{send, running, ended, trace, sent_to}
use git.Base.Typing.{no_newline}
use git.ClientTable.Server.{Client, Server}
use git.ClientTable.Array.{count_fd}
use git.TcpClients.Programs.{sockfd, has_entered, t1c_main, typing_loop, showing_loop}
use git.TcpClients.Sending.{said, t1c_main-said}
use git.TcpClients.Relayed.{msgs_to, chats, typed, shown, typed-shown}

t1c_main-said_example :
    t1c_main true (codes "ann") ((codes "hi" ∷ codes "so" ∷ []) ++ (codes "q" ∷ codes "x" ∷ []))
    ≡ trace
        (send sockfd (codes "ann" ++ has_entered)
          ∷ said (codes "ann") (codes "hi" ∷ codes "so" ∷ []))
        (ended 0)
unfolding strcmp_eq
t1c_main-said_example =
    t1c_main-said (codes "ann") (omega arith) (codes "hi" ∷ codes "so" ∷ []) (codes "x" ∷ [])
      ((refl, omega arith), ((refl, omega arith), tt))

abbrev ann : Client
ann = record { cfd = 4; name = codes "ann" ++ (0 ∷ []) }

abbrev bob : Client
bob = record { cfd = 5; name = codes "bob" ++ (0 ∷ []) }

abbrev two : Server
two = record {
  client = ann ∷ bob ∷ replicate 98 (record { cfd = 0; name = [] });
  cnt = 2;
  sent = [];
  closed = [];
}

abbrev noon : ℕ → Bytes
noon i = codes "12:00"

typed-shown_example :
    (t : Server) × (chats
        (λ log p. true)
        ann
        (sent_to sockfd (typing_loop (typed (codes "hi" ∷ codes "so" ∷ []))).acts)
        two
      ≡ some t)
    × (showing_loop noon 0 (map some (msgs_to 5 t.sent))
        ≡ trace (shown noon (c_str ann.name) 0 (codes "hi" ∷ codes "so" ∷ [])) running)
unfolding no_nul no_newline c_str count_fd msgs_to
typed-shown_example =
    typed-shown (λ log p. true) noon 5 ann (codes "hi" ∷ codes "so" ∷ []) two (λ log p. refl)
      ((refl, refl, omega arith), ((refl, refl, omega arith), tt)) (omega arith) refl refl refl
