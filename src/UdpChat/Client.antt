-- ===== src/UdpChat/Client.antt =====
-- socket/c.c, the client of the UDP chat. Texts are held without their NUL.
use git.Base.{
  ℕ, Bool, not, Option, none, some, List, [], ◌∷◌, ◌++◌, ◌==◌, if◌then◌else◌, ltb, length,
}
use git.Base.Bytes.{Bytes, codes, cut_text, strncmp_eq}
use git.Io.{Status, running, ended, crashed}
use git.UdpChat.Heap.{Msg}
use git.UdpChat.Server.{Fork, no_process, child, parent}

-- What a process has sent to the server and printed, whether it has killed its parent, and how it ends.
pub record Session : Type 0 where
  pub sent : List Msg
  pub printed : List Bytes
  pub killed : Bool
  pub status : Status

abbrev pub session : List Msg → List Bytes → Status → Session
session sent printed status = record {
  sent = sent;
  printed = printed;
  killed = Bool.false;
  status = status;
}

abbrev after_sending : Msg → Session → Session
after_sending m s = record s { sent = m ∷ s.sent }

abbrev after_printing : List Bytes → Session → Session
after_printing bs s = record s { printed = bs ++ s.printed }

abbrev pub message : ℕ → Bytes → Bytes → Msg
message type name text = record { type = type; name = name; text = text }

-- `exit(-1)`
abbrev exit_code : ℕ
exit_code = 255

-- What `fgets` leaves: the line, or at the end of the file the text that was there.
unfoldable pub fgets : Option Bytes → Bytes → Bytes
fgets none old = old
fgets (some line) old = line

-- `while(1)` of the child: each round is the line that `fgets` reads into `text`, of at most 127
-- bytes, and whether `sendto` succeeds.
unfoldable pub child_loop : Bytes → Bytes → List (Option Bytes × Bool) → Session
child_loop name old [] = session [] [] running
child_loop name old ((line, ok) ∷ rest) = elim (cut_text (fgets line old)) [
  | none ↦ session [] [] crashed
  | some text ↦
      let more = child_loop name text rest in
      if strncmp_eq 4 text (codes "quit")
      then (if ok
          then record (session (message b'Q' name text ∷ []) [] (ended 0)) { killed = Bool.true }
          else session [] (codes "sendto2" ∷ []) (ended exit_code))
      else if ok
      then after_sending (message b'B' name text) more
      else session [] (codes "sendto1" ∷ []) (ended exit_code)
]

-- `switch(msg.type)` of the parent; newlines are left out.
unfoldable pub show : Msg → List Bytes
show m =
    if m.type == b'L'
    then (m.name ++ codes " login") ∷ []
    else if m.type == b'B'
    then (codes "from " ++ m.name ++ codes "> " ++ m.text) ∷ []
    else if m.type == b'Q'
    then (m.name ++ codes " quit") ∷ []
    else []

-- `while(1)` of the parent: what `recvfrom` gives.
unfoldable pub parent_loop : List (Option Msg) → Session
parent_loop [] = session [] [] running
parent_loop (none ∷ rest) = session [] (codes "recvfrom" ∷ []) (ended exit_code)
parent_loop (some m ∷ rest) = after_printing (show m) (parent_loop rest)

-- `char name[32]`, into which `fgets` may write 64 bytes.
abbrev pub name_size : ℕ
name_size = 32

-- What `main` meets: its arguments, what was in memory, the results of the calls, the line with the
-- name, the rounds of the child, and what the parent receives.
pub record Setup : Type 0 where
  pub argc : ℕ
  pub stale : Msg
  pub socket_ok : Bool
  pub name_line : Option Bytes
  pub login_ok : Bool
  pub rounds : List (Option Bytes × Bool)
  pub received : List (Option Msg)

unfoldable pub processes : Setup → Bytes → Fork → Session
processes s name no_process = session [] (codes "fork" ∷ []) (ended exit_code)
processes s name child = child_loop name s.stale.text s.rounds
processes s name parent = parent_loop s.received

-- `main`, as the process that `fork` makes of it. A name that does not fit overruns its array.
unfoldable pub client_main : Setup → Fork → Session
client_main s fork =
    if ltb s.argc 3
    then session [] (codes "uasge" ∷ []) (ended exit_code)
    else if not s.socket_ok
    then session [] (codes "socket" ∷ []) (ended exit_code)
    else after_printing (codes "input name:" ∷ []) (
        if not (ltb (length (fgets s.name_line s.stale.name)) name_size)
        then session [] [] crashed
        else elim (cut_text (fgets s.name_line s.stale.name)) [
          | none ↦ session [] [] crashed
          | some name ↦
              if not s.login_ok
              then session [] (codes "sendto3" ∷ []) (ended exit_code)
              else after_sending (message b'L' name s.stale.text) (processes s name fork)
        ])
