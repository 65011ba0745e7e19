-- ===== src/TcpTalk/Accepts.antt =====
-- `main` of s1.c: what it prints, and the variable that every thread reads its socket from.
use git.Base.{ℕ, zero, suc, Bool, not, Option, none, some, List, [], ◌∷◌, ◌++◌, if◌then◌else◌}
use mathlib.Core.Option
use git.Base.Bytes.{Bytes, codes}
use git.Io.{print, close, running, ended, Trace, trace, after}
use git.TcpTalk.Programs.{listener}

-- `for(;;)`: each client is its address as printed; `none` is an `accept` that fails.
unfoldable pub thread_loop : List (Option Bytes) → Trace
thread_loop [] = trace [] running
thread_loop (none ∷ rest) = trace (print (codes "accept()") ∷ []) (ended 3)
thread_loop (some peer ∷ rest) =
    after (print (codes "get a new client " ++ peer) ∷ []) (thread_loop rest)

-- `main`; a `socket` that fails is only reported.
unfoldable pub threads_main : Bool → Bool → Bool → List (Option Bytes) → Trace
threads_main socket_ok bind_ok listen_ok clients =
    after (if socket_ok then [] else print (codes "socket()") ∷ []) (
      if not bind_ok
      then trace (print (codes "bind()") ∷ close listener ∷ []) (ended 1)
      else if not listen_ok
      then trace (print (codes "listen()") ∷ close listener ∷ []) (ended 2)
      else after (print (codes "success") ∷ []) (thread_loop clients))

-- `main` accepts a socket and creates a thread; a thread, counted from 0, reads its argument.
pub data Event : Type 0 where
  accepts : ℕ → Event
  starts : ℕ → Event

-- `client_sock` of `main`, which has one address in all rounds, and what each thread has read there.
pub record Clients : Type 0 where
  pub client_sock : ℕ
  pub threads : List (Option ℕ)

abbrev pub clients : ℕ → List (Option ℕ) → Clients
clients v ts = record { client_sock = v; threads = ts }

-- Thread `k` reads `v`; `none` where it is not there or has read before.
unfoldable pub start_at : ℕ → ℕ → List (Option ℕ) → Option (List (Option ℕ))
start_at v k [] = none
start_at v zero (none ∷ ts) = some (some v ∷ ts)
start_at v zero (some u ∷ ts) = none
start_at v (suc k) (t ∷ ts) = Option.map (λ us. t ∷ us) (start_at v k ts)

unfoldable pub run : List Event → Clients → Option Clients
run [] s = some s
run (accepts fd ∷ es) s = run es (clients fd (s.threads ++ (none ∷ [])))
run (starts k ∷ es) s = elim (start_at s.client_sock k s.threads) [
  | none ↦ none
  | some ts ↦ run es (clients s.client_sock ts)
]
