-- ===== src/ClientTable/Main.antt =====
-- `main` of t2s.c, from its arguments to its rounds; the threads that it creates are the steps of
-- ClientTable/Room. Newlines are left out of what is printed.
use git.Base.{ℕ, Bool, not, Option, none, some, List, [], ◌∷◌, ◌++◌, ◌==◌, if◌then◌else◌}
use git.Base.Bytes.{Bytes, codes}
use git.Io.{print, running, ended, crashed, Trace, trace, after}
use git.ClientTable.Server.{Packet, Server, start, join}

-- "等待客户机连接....", "有一个客户机成功连接:ip <" in UTF-8.
abbrev pub waiting : Bytes
waiting =
    0xe7
    ∷ 0xad
    ∷ 0x89
    ∷ 0xe5
    ∷ 0xbe
    ∷ 0x85
    ∷ 0xe5
    ∷ 0xae
    ∷ 0xa2
    ∷ 0xe6
    ∷ 0x88
    ∷ 0xb7
    ∷ 0xe6
    ∷ 0x9c
    ∷ 0xba
    ∷ 0xe8
    ∷ 0xbf
    ∷ 0x9e
    ∷ 0xe6
    ∷ 0x8e
    ∷ 0xa5
    ∷ codes "...."

abbrev has_connected : Bytes
has_connected =
    0xe6
    ∷ 0x9c
    ∷ 0x89
    ∷ 0xe4
    ∷ 0xb8
    ∷ 0x80
    ∷ 0xe4
    ∷ 0xb8
    ∷ 0xaa
    ∷ 0xe5
    ∷ 0xae
    ∷ 0xa2
    ∷ 0xe6
    ∷ 0x88
    ∷ 0xb7
    ∷ 0xe6
    ∷ 0x9c
    ∷ 0xba
    ∷ 0xe6
    ∷ 0x88
    ∷ 0x90
    ∷ 0xe5
    ∷ 0x8a
    ∷ 0x9f
    ∷ 0xe8
    ∷ 0xbf
    ∷ 0x9e
    ∷ 0xe6
    ∷ 0x8e
    ∷ 0xa5
    ∷ codes ":ip <"

-- A client that `accept` returns: its socket, its name as it arrives, its address and port as printed,
-- and the text of the error if `pthread_create` fails.
pub record Arrival : Type 0 where
  pub cfd : ℕ
  pub received : Bytes
  pub ip : Bytes
  pub port : Bytes
  pub refused : Option Bytes

-- What the round prints at its end. A client without a thread stays in the array.
unfoldable pub report : Arrival → Bytes
report a = elim a.refused [
  | some e ↦ codes "pthread_create:" ++ e
  | none ↦ has_connected ++ a.ip ++ codes "> port [" ++ a.port ++ codes "]"
]

pub record Run : Type 0 where
  pub server : Server
  pub output : Trace

abbrev run_of : Server → Trace → Run
run_of s t = record { server = s; output = t }

module _ (accepts : List Packet → Packet → Bool) where
  -- `while(1)`, while no thread moves; `none` is an `accept` that fails.
  unfoldable pub accept_loop : List (Option Arrival) → Server → Run
  accept_loop [] s = run_of s (trace (print waiting ∷ []) running)
  accept_loop (none ∷ rest) s =
      run_of s (trace (print waiting ∷ print (codes "accept") ∷ []) (ended 255))
  accept_loop (some a ∷ rest) s = elim (join accepts a.cfd a.received s) [
    | none ↦ run_of s (trace (print waiting ∷ []) crashed)
    | some t ↦
        let more = accept_loop rest t in
        record more { output = after (print waiting ∷ print (report a) ∷ []) more.output }
  ]

  -- `main`
  unfoldable pub main : ℕ → Bool → Bool → Bool → List (Option Arrival) → Run
  main argc socket_ok bind_ok listen_ok arrivals =
      if not (argc == 3)
      then run_of start (trace (print (codes "use:  <ip> [port]") ∷ []) (ended 255))
      else if not socket_ok
      then run_of start (trace (print (codes "socket") ∷ []) (ended 255))
      else if not bind_ok
      then run_of start (trace (print (codes "bind") ∷ []) (ended 255))
      else if not listen_ok
      then run_of start (trace (print (codes "listen") ∷ []) (ended 255))
      else accept_loop arrivals start
