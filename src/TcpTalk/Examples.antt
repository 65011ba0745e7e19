-- ===== src/TcpTalk/Examples.antt =====
-- Talks of one and two rounds.
use mathlib.Core.List.{map}
use git.Base.{◌≡◌, refl, true, none, some, ◌++◌, List, [], ◌∷◌, replicate, arith}
use git.Base.Bytes.{Bytes, codes, no_nul, strncmp_eq}
use git.Io.{running, ended, Trace, trace, sent_to}
use git.TcpTalk.Programs.{sock, client_loop, talk, is_quit, strncasecmp_eq, to_lower}
use git.TcpTalk.Dialogue.{
  IsPlain, client_rounds, server_rounds, server_acts, printed, client_prints, dialogue,
}
use git.TcpTalk.Accepts.{accepts, clients, run, threads_main, thread_loop}
use git.TcpTalk.Sockets.{prompt, starts_from, last, sockets-read}

abbrev questions : List (Bytes × Bytes)
questions = (codes "hi", codes "yes?") ∷ (codes "how", codes "so") ∷ []

hi-IsPlain : IsPlain (codes "hi")
unfolding no_nul is_quit strncasecmp_eq strncmp_eq to_lower
hi-IsPlain = record { whole = refl; fits = omega arith; goes_on = refl }

yes-IsPlain : IsPlain (codes "yes?")
unfolding no_nul is_quit strncasecmp_eq strncmp_eq to_lower
yes-IsPlain = record { whole = refl; fits = omega arith; goes_on = refl }

how-IsPlain : IsPlain (codes "how")
unfolding no_nul is_quit strncasecmp_eq strncmp_eq to_lower
how-IsPlain = record { whole = refl; fits = omega arith; goes_on = refl }

so-IsPlain : IsPlain (codes "so")
unfolding no_nul is_quit strncasecmp_eq strncmp_eq to_lower
so-IsPlain = record { whole = refl; fits = omega arith; goes_on = refl }

abbrev stop : Trace
stop = trace [] (ended 0)

dialogue_example :
    (talk 4 stop (
        server_rounds
          (sent_to sock (client_loop (replicate 1024 7) (client_rounds questions)).acts)
          questions)
      ≡ trace (server_acts 4 questions) running)
    × (printed (client_loop (replicate 1024 7) (client_rounds questions)).acts
        ≡ client_prints questions)
    × ((client_loop (replicate 1024 7) (client_rounds questions)).status ≡ running)
dialogue_example =
    dialogue 4 stop questions (replicate 1024 7)
      ((hi-IsPlain, yes-IsPlain), ((how-IsPlain, so-IsPlain), tt)) refl

sockets-read_example :
    (run (prompt 0 (4 ∷ 5 ∷ [])) (clients 0 [])
      ≡ some (clients (last 0 (4 ∷ 5 ∷ [])) (map some (4 ∷ 5 ∷ []))))
    × (run (map accepts (4 ∷ 5 ∷ []) ++ starts_from 0 2) (clients 0 [])
        ≡ some (clients (last 0 (4 ∷ 5 ∷ [])) (replicate 2 (some (last 0 (4 ∷ 5 ∷ []))))))
sockets-read_example = sockets-read 0 (4 ∷ 5 ∷ [])

two_clients : (threads_main true true true (some (codes "a:1") ∷ none ∷ [])).status ≡ ended 3
unfolding threads_main thread_loop
two_clients = refl
