-- ===== src/UdpChat/Protocol.antt =====
-- The messages that a client sends, as a type.
use git.Base.{Bool, true, false, not, Option, none, some, List, [], ◌∷◌, if◌then◌else◌, ltb, length}
use git.Base.Bytes.{Bytes, codes, cut_text, strncmp_eq}
use git.Io.{ended, crashed}
use git.UdpChat.Heap.{Msg}
use git.UdpChat.Server.{Fork, no_process, child, parent}
use git.UdpChat.Client.{
  Session, session, message, fgets, child_loop, parent_loop, name_size, Setup, processes,
  client_main,
}

-- What follows a login under a name: talk, and at most one quit, which is the last and kills the parent.
pub data Talk (name : Bytes) : List Msg → Bool → Type 0 where
  silent : Talk name [] false
  quits : (text : Bytes) → Talk name (message b'Q' name text ∷ []) true
  says :
      (text : Bytes) {ms : List Msg} {killed : Bool}
      → Talk name ms killed
      → Talk name (message b'B' name text ∷ ms) killed

-- Nothing at all, or a login and what may follow it.
pub data Protocol : List Msg → Bool → Type 0 where
  nothing : Protocol [] false
  logs_in :
      (name text : Bytes) {ms : List Msg} {killed : Bool}
      → Talk name ms killed
      → Protocol (message b'L' name text ∷ ms) killed

abbrev Talks : Bytes → Session → Type 0
Talks name s = Talk name s.sent s.killed

abbrev Obeys : Session → Type 0
Obeys s = Protocol s.sent s.killed

either-session :
    (P : Session → Type 0) (b : Bool) (s t : Session) → P s → P t → P (if b then s else t)
either-session P true s t p q = p
either-session P false s t p q = q

parent_loop-silent :
    (name : Bytes) (received : List (Option Msg)) → Talks name (parent_loop received)
unfolding parent_loop
parent_loop-silent name [] = silent
parent_loop-silent name (none ∷ rest) = silent
parent_loop-silent name (some m ∷ rest) = parent_loop-silent name rest

-- What is done with a line, if what follows another line is talk.
round-Talk :
    (name text : Bytes) (ok : Bool) (more : Session)
    → Talks name more
    → Talks name (
        if strncmp_eq 4 text (codes "quit")
        then (if ok
            then record (session (message b'Q' name text ∷ []) [] (ended 0)) { killed = true }
            else session [] (codes "sendto2" ∷ []) (ended 255))
        else if ok
        then record more { sent = message b'B' name text ∷ more.sent }
        else session [] (codes "sendto1" ∷ []) (ended 255))
round-Talk name text ok more t =
    either-session (Talks name) (strncmp_eq 4 text (codes "quit")) _ _
      (either-session (Talks name) ok _ _ (quits text) silent)
      (either-session (Talks name) ok _ _ (says text t) silent)

child_loop-Talk :
    (name old : Bytes) (rounds : List (Option Bytes × Bool))
    → Talks name (child_loop name old rounds)
unfolding child_loop
child_loop-Talk name old [] = silent
child_loop-Talk name old ((line, ok) ∷ rest) =
    elim (cut_text (fgets line old))
      as (λ o. Talks name (elim o [
        | none ↦ session [] [] crashed
        | some text ↦
            if strncmp_eq 4 text (codes "quit")
            then (if ok
                then record (session (message b'Q' name text ∷ []) [] (ended 0)) { killed = true }
                else session [] (codes "sendto2" ∷ []) (ended 255))
            else if ok
            then record (child_loop name text rest) {
              sent = message b'B' name text ∷ (child_loop name text rest).sent;
            }
            else session [] (codes "sendto1" ∷ []) (ended 255)
      ])) [
        | none ↦ silent
        | some text ↦
            round-Talk name text ok (child_loop name text rest) (child_loop-Talk name text rest)
      ]

processes-Talk : (s : Setup) (name : Bytes) (fork : Fork) → Talks name (processes s name fork)
unfolding processes
processes-Talk s name no_process = silent
processes-Talk s name child = child_loop-Talk name s.stale.text s.rounds
processes-Talk s name parent = parent_loop-silent name s.received

login-Protocol :
    (s : Setup) (fork : Fork) (o : Option Bytes)
    → Obeys (elim o [
      | none ↦ session [] [] crashed
      | some name ↦
          if not s.login_ok
          then session [] (codes "sendto3" ∷ []) (ended 255)
          else record (processes s name fork) {
            sent = message b'L' name s.stale.text ∷ (processes s name fork).sent;
          }
    ])
login-Protocol s fork none = nothing
login-Protocol s fork (some name) =
    either-session Obeys (not s.login_ok) _ _ nothing
      (logs_in name s.stale.text (processes-Talk s name fork))

-- Every process of a client, with every input and every failure, sends nothing, or a login, messages under
-- the same name and then at most one quit, which it sends last; and it kills its parent exactly if it has
-- sent the quit.
pub client_main-Protocol :
    (s : Setup) (fork : Fork) → Protocol (client_main s fork).sent (client_main s fork).killed
unfolding client_main
client_main-Protocol s fork = either-session Obeys (ltb s.argc 3) _ _ nothing (
    either-session Obeys (not s.socket_ok) _ _ nothing (
      either-session Obeys (not (ltb (length (fgets s.name_line s.stale.name)) name_size)) _ _
        nothing (login-Protocol s fork (cut_text (fgets s.name_line s.stale.name)))))
