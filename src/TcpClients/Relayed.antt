-- ===== src/TcpClients/Relayed.antt =====
-- Clients of t2c.c and the server t2s.c together: what is typed at one client is shown by another.
use git.Base.{
  ℕ, suc, ◌+◌, ◌≤◌, ◌<◌, ◌≡◌, refl, ap, ◌∙◌, Bool, Bool-cases, true, false, inl, inr, Option, some,
  List, [], ◌∷◌, ◌++◌, append_assoc, append-nil, ◌==◌, if◌then◌else◌, ltb, length, length-append,
  replicate, arith,
}
use mathlib.Core.List.{map}
use git.Base.Options.{◌>>=◌}
use git.Base.Bytes.{Bytes, c_str, no_nul, c_str-append, c_str-whole, no_nul-append, no_nul-c_str}
use git.Io.{Action, print, running, trace, after, sent_to}
use git.Base.Typing.{no_newline}
use git.ClientTable.Server.{Client, Packet, Server, chat_line, chat}
use git.ClientTable.Array.{live, count_fd}
use git.ClientTable.Broadcast.{relay, broadcast-relay}
use git.TcpClients.Programs.{sockfd, buf_size, typing_loop, showing_loop}

-- The texts of the packets to one socket.
unfoldable pub msgs_to : ℕ → List Packet → List Bytes
msgs_to fd [] = []
msgs_to fd ((to, msg) ∷ log) = if to == fd then msg ∷ msgs_to fd log else msgs_to fd log

-- The thread of `cl` receives one packet after another, each with a `recv` of its own.
unfoldable pub chats : (List Packet → Packet → Bool) → Client → List Bytes → Server → Option Server
chats accepts cl [] s = some s
chats accepts cl (b ∷ bs) s = do t ← chat accepts cl b s; chats accepts cl bs t

-- A line without NUL, as `gets` gives it, that fits the buffers on its way.
abbrev AllFit : Bytes → List Bytes → Type 0
AllFit name [] = Unit {0}
AllFit name (l ∷ ls) =
    ((no_nul l ≡ true) × (no_newline l ≡ true) × (length name + length l < 1022)) × AllFit name ls

abbrev pub typed : List Bytes → List (Bytes × Bool)
typed [] = []
typed (l ∷ ls) = (l, true) ∷ typed ls

-- What the others see of a line.
abbrev line_of : Bytes → Bytes → Bytes
line_of name l = name ++ (b' ' ∷ b':' ∷ l)

typing_loop-lines :
    (name : Bytes) (lines : List Bytes)
    → AllFit name lines
    → sent_to sockfd (typing_loop (typed lines)).acts ≡ map (λ l. l ++ (0 ∷ [])) lines
unfolding typing_loop sent_to
typing_loop-lines name [] h = refl
typing_loop-lines name (l ∷ ls) ((n, _, short), h) =
    let fits : ltb (length l) buf_size ≡ true = ground (arith, short) in
    rw fits (ap (λ (bs : List Bytes). (l ++ (0 ∷ [])) ∷ bs) (typing_loop-lines name ls h))

module _ (accepts : List Packet → Packet → Bool)
    (up : (log : List Packet) (p : Packet) → accepts log p ≡ true) (fd : ℕ) where
  msgs_to-snoc :
      (log : List Packet) (to : ℕ) (msg : Bytes)
      → msgs_to fd (log ++ ((to, msg) ∷ [])) ≡ msgs_to fd log ++ (if to == fd then msg ∷ [] else [])
  unfolding msgs_to
  msgs_to-snoc [] to msg = ground arith
  msgs_to-snoc ((to', m) ∷ log) to msg = ground (arith, msgs_to-snoc log to msg)

  msgs_to-relay :
      (msg : Bytes) (c : Client) (xs : List Client) (log : List Packet)
      → (c.cfd == fd) ≡ false
      → msgs_to fd (relay accepts msg c xs log) ≡ msgs_to fd log ++ replicate (count_fd fd xs) msg
  unfolding relay count_fd
  msgs_to-relay msg c [] log other = rw append-nil
  msgs_to-relay msg c (x ∷ xs) log other = elim (Bool-cases (x.cfd == c.cfd)) [
    | inl own ↦
        let out : (x.cfd == fd) ≡ false = ground (arith, own, other) in
        let e : 0 + count_fd fd xs ≡ count_fd fd xs = omega arith in
        rw (own, out, e) (msgs_to-relay msg c xs log other)
    | inr else_ ↦
        rw
          (
            else_,
            up log (x.cfd, msg),
            msgs_to-relay msg c xs (log ++ ((x.cfd, msg) ∷ [])) other,
            msgs_to-snoc log x.cfd msg,
          )
          (elim (Bool-cases (x.cfd == fd)) [
            | inl hit ↦
                let e : 1 + count_fd fd xs ≡ suc (count_fd fd xs) = omega arith in
                rw (hit, e) (append_assoc (msgs_to fd log) (msg ∷ []) _)
            | inr miss ↦
                let e : 0 + count_fd fd xs ≡ count_fd fd xs = omega arith in
                rw (miss, e, append-nil)
          ])
  ]

  -- One line that the thread of `cl` receives, for a client that is live once.
  chat-line :
      (cl : Client) (l : Bytes) (s : Server)
      → no_nul l ≡ true
      → s.cnt ≤ length s.client
      → (cl.cfd == fd) ≡ false
      → count_fd fd (live s) ≡ 1
      → (log : List Packet) × (chat accepts cl (l ++ (0 ∷ [])) s ≡ some (record s { sent = log }))
        × (msgs_to fd log ≡ msgs_to fd s.sent ++ (line_of (c_str cl.name) l ∷ []))
  unfolding chat chat_line
  chat-line cl l s n whole other once =
      let name = c_str cl.name in
      let text : c_str (name ++ (b' ' ∷ b':' ∷ (l ++ (0 ∷ [])))) ≡ line_of name l =
        rw (← append_assoc name (b' ' ∷ b':' ∷ l) (0 ∷ [])) (
          c_str-append (line_of name l) []
            (no_nul-append name (b' ' ∷ b':' ∷ l) (no_nul-c_str cl.name) (unfold no_nul in n))) in
      (
        relay accepts (line_of name l) cl (live s) s.sent,
        rw text (broadcast-relay accepts (line_of name l) cl s whole),
        msgs_to-relay (line_of name l) cl (live s) s.sent other
            ∙ ap (λ k. msgs_to fd s.sent ++ replicate k (line_of name l)) once,
      )

  chats-lines :
      (cl : Client) (lines : List Bytes) (s : Server)
      → AllFit (c_str cl.name) lines
      → s.cnt ≤ length s.client
      → (cl.cfd == fd) ≡ false
      → count_fd fd (live s) ≡ 1
      → (t : Server) × (chats accepts cl (map (λ l. l ++ (0 ∷ [])) lines) s ≡ some t)
        × (msgs_to fd t.sent ≡ msgs_to fd s.sent ++ map (line_of (c_str cl.name)) lines)
  unfolding chats
  chats-lines cl [] s h whole other once = (s, refl, rw append-nil)
  chats-lines cl (l ∷ ls) s ((n, _, short), h) whole other once =
      let (log, e, said) = chat-line cl l s n whole other once in
      let (t, f, rest) = chats-lines cl ls (record s { sent = log }) h whole other once in
      (
        t,
        rw e f,
        rest
            ∙ ap (λ ms. ms ++ map (line_of (c_str cl.name)) ls) said
            ∙ append_assoc (msgs_to fd s.sent) (line_of (c_str cl.name) l ∷ []) _,
      )

module _ (ctime : ℕ → Bytes) (name : Bytes) where
  -- The lines under the name, each with the time of its round.
  abbrev pub shown : ℕ → List Bytes → List Action
  shown i [] = []
  shown i (l ∷ ls) = print (ctime i) ∷ print (line_of name l) ∷ shown (suc i) ls

  showing_loop-lines :
      (i : ℕ) (lines : List Bytes)
      → no_nul name ≡ true
      → AllFit name lines
      → showing_loop ctime i (map some (map (line_of name) lines)) ≡ trace (shown i lines) running
  unfolding showing_loop
  showing_loop-lines i [] clean h = refl
  showing_loop-lines i (l ∷ ls) clean ((n, _, short), h) =
      let whole : c_str (line_of name l) ≡ line_of name l =
        c_str-whole (line_of name l)
          (no_nul-append name (b' ' ∷ b':' ∷ l) clean (unfold no_nul in n)) in
      let fits : ltb (length (line_of name l)) buf_size ≡ true =
        ground (arith, length-append name (b' ' ∷ b':' ∷ l), short) in
      rw (whole, fits)
        (ap (after (print (ctime i) ∷ print (line_of name l) ∷ []))
          (showing_loop-lines (suc i) ls clean h))

pub typed-shown :
    (accepts : List Packet → Packet → Bool) (ctime : ℕ → Bytes) (fd : ℕ) (cl : Client)
    (lines : List Bytes) (s : Server)
    → ((log : List Packet) (p : Packet) → accepts log p ≡ true)
    → AllFit (c_str cl.name) lines
    → s.cnt ≤ length s.client
    → (cl.cfd == fd) ≡ false
    → count_fd fd (live s) ≡ 1
    → msgs_to fd s.sent ≡ []
    → (t : Server) × (chats accepts cl (sent_to sockfd (typing_loop (typed lines)).acts) s ≡ some t)
      × (showing_loop ctime 0 (map some (msgs_to fd t.sent))
          ≡ trace (shown ctime (c_str cl.name) 0 lines) running)
typed-shown accepts ctime fd cl lines s up h whole other once quiet =
    let (t, e, said) = chats-lines accepts up fd cl lines s h whole other once in
    let lines_only = said ∙ ap (λ ms. ms ++ map (line_of (c_str cl.name)) lines) quiet in
    (
      t,
      rw (typing_loop-lines (c_str cl.name) lines h) e,
      rw lines_only (showing_loop-lines ctime (c_str cl.name) 0 lines (no_nul-c_str cl.name) h),
    )
