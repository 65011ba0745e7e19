-- ===== src/UdpChat/Conversation.antt =====
-- Clients and server together: what is typed at one client is shown by another.
use git.Base.{
  ℕ, suc, ◌+◌, ◌<◌, ◌≡◌, refl, ap, ◌∙◌, Bool, true, false, Option, some, List, [], ◌∷◌, ◌++◌,
  length, length-append, ltb, arith,
}
use mathlib.Core.List.{map}
use git.Base.Bytes.{Bytes, codes, cut_text-line, strncmp_eq}
use git.Base.Typing.{reads, with_newline, input_of, IsLine, AllLines, reads-lines}
use git.Io.{ended}
use git.UdpChat.Heap.{SockAddr, memcmp_eq, Msg, Ptr, Heap, Datagram, world, Run}
use git.UdpChat.Server.{Libc, Received, datagram, serve, child}
use git.UdpChat.Chain.{Cells, addrs, Chain}
use git.UdpChat.Login.{Allocates}
use git.UdpChat.Deliveries.{count_peer, Sent, returned, left}
use git.UdpChat.Client.{
  Session, Setup, name_size, processes, client_main, session, message, fgets, child_loop, show,
  parent_loop,
}
use git.UdpChat.Hearing.{msgs_to, heard_of, heard, Stays, serve-heard}

-- The lines that a user types, none of which begins with "quit".
abbrev AllTalk : List Bytes → Type 0
AllTalk [] = Unit {0}
AllTalk (l ∷ ls) = (strncmp_eq 4 l (codes "quit") ≡ false) × AllTalk ls

-- The rounds of a child in which `fgets` and `sendto` succeed.
abbrev pub rounds_of : List Bytes → List (Option Bytes × Bool)
rounds_of [] = []
rounds_of (l ∷ ls) = (some l, true) ∷ rounds_of ls

abbrev typed : List Bytes → List (Option Bytes × Bool)
typed lines = rounds_of (map with_newline lines)

-- The messages of a user: the lines, and the last one.
abbrev script : Bytes → List Bytes → Bytes → List Msg
script name [] bye = message b'Q' name bye ∷ []
script name (l ∷ ls) bye = message b'B' name l ∷ script name ls bye

child_loop-script :
    (name old bye : Bytes) (lines : List Bytes) (rest : List (Option Bytes × Bool))
    → AllTalk lines
    → strncmp_eq 4 bye (codes "quit") ≡ true
    → child_loop name old (typed lines ++ ((some (bye ++ (10 ∷ [])), true) ∷ rest))
      ≡ record (session (script name lines bye) [] (ended 0)) { killed = true }
unfolding child_loop fgets
child_loop-script name old bye [] rest t q = rw (child_loop, cut_text-line bye, q)
child_loop-script name old bye (l ∷ ls) rest (t, ts) q =
    rw (child_loop, cut_text-line l, t, child_loop-script name l bye ls rest ts q)

rounds_of-last :
    (lines : List Bytes) (bye : Bytes)
    → typed (lines ++ (bye ∷ [])) ≡ typed lines ++ ((some (with_newline bye), true) ∷ [])
rounds_of-last [] bye = refl
rounds_of-last (l ∷ ls) bye =
    ap (λ (r : List (Option Bytes × Bool)). (some (with_newline l), true) ∷ r)
      (rounds_of-last ls bye)

-- `fgets(msg.text,N,stdin)` reads at most 127 bytes.
abbrev pub text_size : ℕ
text_size = 127

-- What the child reads of the lines and the last one.
abbrev pub read_by_child : List Bytes → List (Option Bytes × Bool)
read_by_child lines = rounds_of (reads (length lines) text_size (input_of lines))

read_by_child-typed :
    (lines : List Bytes) (bye : Bytes)
    → AllLines text_size (lines ++ (bye ∷ []))
    → read_by_child (lines ++ (bye ∷ [])) ≡ typed lines ++ ((some (with_newline bye), true) ∷ [])
read_by_child-typed lines bye h =
    ap rounds_of (reads-lines text_size (lines ++ (bye ∷ [])) h) ∙ rounds_of-last lines bye

-- A client started by a user who types a name, lines and a last line, with every call successful.
abbrev pub user : Msg → Bytes → List Bytes → Bytes → Setup
user stale name lines bye = record {
  argc = 3;
  stale = stale;
  socket_ok = true;
  name_line = some (with_newline name);
  login_ok = true;
  rounds = read_by_child (lines ++ (bye ∷ []));
  received = [];
}

user_sends :
    (stale : Msg) (name bye : Bytes) (lines : List Bytes)
    → IsLine 31 name
    → AllLines text_size (lines ++ (bye ∷ []))
    → AllTalk lines
    → strncmp_eq 4 bye (codes "quit") ≡ true
    → client_main (user stale name lines bye) child
      ≡ record (session
          (message b'L' name stale.text ∷ script name lines bye)
          (codes "input name:" ∷ [])
          (ended 0)) { killed = true }
unfolding client_main processes fgets
user_sends stale name bye lines (_, _, small) whole t q =
    let fits : ltb (length (name ++ (10 ∷ []))) name_size ≡ true =
      ground (arith, length-append name (10 ∷ []), small) in
    rw (
      client_main,
      fits,
      cut_text-line name,
      read_by_child-typed lines bye whole,
      child_loop-script name stale.text bye lines [] t q,
    )

-- The datagrams of a client at `a`.
abbrev pub datagrams : SockAddr → List Msg → List Received
datagrams a [] = []
datagrams a (m ∷ ms) = datagram m a ∷ datagrams a ms

-- What another user is to see.
abbrev pub seen : Bytes → List Bytes → List Bytes
seen name [] = (name ++ codes " quit") ∷ []
seen name (l ∷ ls) = (codes "from " ++ name ++ codes "> " ++ l) ∷ seen name ls

module _ (a b : SockAddr) (apart : memcmp_eq a b ≡ false) where
  script-Stays :
      (name bye : Bytes) (lines : List Bytes) → Stays b (datagrams a (script name lines bye))
  script-Stays name bye [] = (rw apart, tt)
  script-Stays name bye (l ∷ ls) = (refl, script-Stays name bye ls)

  heard-script :
      (name bye : Bytes) (lines : List Bytes)
      → heard b (datagrams a (script name lines bye)) ≡ script name lines bye
  unfolding heard heard_of
  heard-script name bye [] = rw apart
  heard-script name bye (l ∷ ls) = rw (apart, heard-script name bye ls)

length-script :
    (a : SockAddr) (name bye : Bytes) (lines : List Bytes)
    → length (datagrams a (script name lines bye)) ≡ suc (length lines)
length-script a name bye [] = refl
length-script a name bye (l ∷ ls) = ap suc (length-script a name bye ls)

parent_loop-script :
    (name bye : Bytes) (lines : List Bytes)
    → (parent_loop (map some (script name lines bye))).printed ≡ seen name lines
unfolding parent_loop show
parent_loop-script name bye [] = refl
parent_loop-script name bye (l ∷ ls) =
    ap (λ (bs : List Bytes). (codes "from " ++ name ++ codes "> " ++ l) ∷ bs)
      (parent_loop-script name bye ls)

Sent-mono :
    {P Q : List Datagram → Type 0} {r : Run (Unit {0})}
    → ((l : List Datagram) → P l → Q l)
    → Sent P r
    → Sent Q r
Sent-mono f (returned w h) = returned w (f w.sent h)
Sent-mono f (left w h) = left w (f w.sent h)

-- A client at `a` whose user types a name of at most 30 bytes, lines that do not begin with "quit" and then
-- one that does, of at most 126 bytes each, all without NUL, ends with 0, and has killed its receiving
-- process. If the server receives what it has sent, in
-- order, with a client at `b` logged in once and every call successful, then `b` shows the login, each
-- line under the name, in order, and the quit, and nothing else.
pub user-seen :
    (libc : Libc) (k : ℕ) (p : Ptr) (c a b : SockAddr) (h : Heap) (xs : Cells) (stale : Msg)
    (name bye : Bytes) (lines : List Bytes)
    → Allocates libc
    → ((l : List Datagram) (d : Datagram) → libc.accepts l d ≡ true)
    → Chain h ((p, c) ∷ xs)
    → length xs + suc (suc (length lines)) < k
    → count_peer b (addrs xs) ≡ 1
    → memcmp_eq a b ≡ false
    → IsLine 31 name
    → AllLines text_size (lines ++ (bye ∷ []))
    → AllTalk lines
    → strncmp_eq 4 bye (codes "quit") ≡ true
    → let client : Session = client_main (user stale name lines bye) child in
      (client.status ≡ ended 0)
      × (client.killed ≡ true)
      × Sent
          (λ l.
            (parent_loop (map some (msgs_to b l))).printed
            ≡ (name ++ codes " login") ∷ seen name lines)
          (serve libc k p (datagrams a client.sent) (world h []))
unfolding msgs_to heard heard_of parent_loop show
user-seen libc k p c a b h xs stale name bye lines alloc_ok up ch fuel once apart small whole t q =
    let said : List Msg = message b'L' name stale.text ∷ script name lines bye in
    let all : heard b (datagrams a said) ≡ said =
      rw (apart, heard-script a b apart name bye lines) in
    let shown : (parent_loop (map some said)).printed ≡ (name ++ codes " login") ∷ seen name lines =
      ap (λ (bs : List Bytes). (name ++ codes " login") ∷ bs) (parent_loop-script name bye lines) in
    rw (user_sends stale name bye lines small whole t q) (
      refl,
      refl,
      Sent-mono (λ l e. ap (λ ms. (parent_loop (map some ms)).printed) (e ∙ all) ∙ shown)
          (serve-heard libc k p c b h [] xs (datagrams a said) alloc_ok up ch
            (omega (arith, length-script a name bye lines)) once
            (rw apart, script-Stays a b apart name bye lines)),
    )
