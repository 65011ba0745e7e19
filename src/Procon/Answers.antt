-- ===== src/Procon/Answers.antt =====
-- What a user of admin1.c sees of procon1.c.
use git.Base.{
  ℕ, zero, suc, ◌+◌, ◌/◌, ◌%◌, ◌≤◌, ◌<◌, ◌≡◌, refl, ap, ◌∙◌, Bool, true, false, List, [], ◌∷◌, ◌++◌,
  ltb, length, drop, length-append, if◌then◌else◌, arith, append-nil,
}
use git.Base.Bytes.{
  Bytes, codes, c_str, no_nul, c_str-whole, no_nul-append, atoi, decimal, decimal_digits, strcmp_eq,
  strncmp_eq, contains,
}
use git.Io.{Action, print, send, close, running, ended, trace, after, sent_to, sent_to-append}
use git.Relay.Loop.{is_exit, rfd, fgets}
use git.Relay.Blocking.{blocking_loop}
use git.Procon.Commands.{
  wfd, max_threads, Server, Request, newline, Command, create_producer, create_consumer, delete,
  list_producer, list_consumer, exit, unknown, command1, identity, produce, consume, execute1,
  procon1_loop,
}
use git.Procon.Admin.{heard, rounds}

module _ (key_delete : ℕ → Bool) where
  -- The one answer to a command.
  abbrev pub answer : Request → Command → Bytes
  answer r create_producer = identity r
  answer r create_consumer = identity r
  answer r delete = if key_delete (atoi (drop 6 r.str)) then codes "OK" else codes "failed"
  answer r list_producer = []
  answer r list_consumer = []
  answer r exit = []
  answer r unknown = codes "UNKNOWN COMMAND"

-- The command is answered once, and the thread that it starts has room and ends.
abbrev Served : Command → Server → Type 0
Served create_producer s = length s.tid_p < max_threads
Served create_consumer s = (length s.tid_c < max_threads) × (5 ≤ s.items)
Served delete s = Unit {0}
Served list_producer s = ⊥
Served list_consumer s = ⊥
Served exit s = ⊥
Served unknown s = Unit {0}

-- A text without NUL, of at most `k` bytes.
abbrev IsText : ℕ → Bytes → Type 0
IsText k b = (no_nul b ≡ true) × (length b ≤ k)

either-IsText :
    {k : ℕ} (t : Bool) (a b : Bytes) → IsText k a → IsText k b → IsText k (if t then a else b)
either-IsText true a b p q = p
either-IsText false a b p q = q

digit-IsText : (d : ℕ) → IsText 1 ((b'0' + d) ∷ [])
unfolding no_nul
digit-IsText d = (ground arith, omega arith)

append-IsText : (k n : ℕ) (a b : Bytes) → IsText k a → IsText n b → IsText (k + n) (a ++ b)
append-IsText k n a b (p, l) (q, m) =
    (no_nul-append a b p q, omega (arith, length-append a b, l, m))

decimal_digits-IsText : (k n : ℕ) → IsText k (decimal_digits k n)
unfolding decimal_digits no_nul
decimal_digits-IsText zero n = (refl, omega arith)
decimal_digits-IsText (suc k) n =
    let (one, short) = digit-IsText n in
    let (whole, fits) =
      append-IsText k 1 (decimal_digits k (n / 10)) ((b'0' + n % 10) ∷ [])
        (decimal_digits-IsText k (n / 10)) (digit-IsText (n % 10)) in
    either-IsText (ltb n 10) ((b'0' + n) ∷ []) (decimal_digits k (n / 10) ++ ((b'0' + n % 10) ∷ []))
      (one, omega arith) (whole, omega (arith, fits))

identity-IsText : (r : Request) → IsText 20 (identity r)
unfolding decimal
identity-IsText r = decimal_digits-IsText 20 (if r.stored then r.tid else 0)

-- The line "exit".
abbrev pub goodbye : Request
goodbye = record { str = newline "exit"; tid = 0; stored = false }

abbrev pub leaves : List Action
leaves = send git.Relay.Loop.wfd (newline "exit") ∷ print (10 ∷ []) ∷ close rfd ∷ close wfd ∷ []

module _ (key_delete : ℕ → Bool) where
  answer-IsText : (r : Request) (c : Command) → IsText 20 (answer key_delete r c)
  unfolding no_nul
  answer-IsText r create_producer = identity-IsText r
  answer-IsText r create_consumer = identity-IsText r
  answer-IsText r delete =
      either-IsText (key_delete (atoi (drop 6 r.str))) (codes "OK") (codes "failed")
        (refl, omega arith) (refl, omega arith)
  answer-IsText r list_producer = (refl, omega arith)
  answer-IsText r list_consumer = (refl, omega arith)
  answer-IsText r exit = (refl, omega arith)
  answer-IsText r unknown = (refl, omega arith)

  Served-answered :
      (r : Request) (c : Command) (s : Server)
      → Served c s
      → (sent_to wfd (execute1 key_delete r c s).acts ≡ answer key_delete r c ∷ [])
        × ((execute1 key_delete r c s).status ≡ running)
  unfolding execute1 produce consume sent_to
  Served-answered r create_producer s h =
      let room : ltb (length s.tid_p) max_threads ≡ true = ground (arith, h) in rw room (refl, refl)
  Served-answered r create_consumer s (h, enough) =
      let room : ltb (length s.tid_c) max_threads ≡ true = ground (arith, h) in
      let full : ltb s.items 5 ≡ false = ground (arith, enough) in rw (room, full) (refl, refl)
  Served-answered r delete s h = (refl, refl)
  Served-answered r list_producer s h = elim h [ ]
  Served-answered r list_consumer s h = elim h [ ]
  Served-answered r exit s h = elim h [ ]
  Served-answered r unknown s h = (refl, refl)

  -- Commands that are served one after the other, of which admin1.c takes none for its end.
  abbrev pub AllServed : List Request → Server → Type 0
  AllServed [] s = Unit {0}
  AllServed (r ∷ rs) s =
      (is_exit r.str ≡ false)
      × Served (command1 r.str) s
      × AllServed rs (execute1 key_delete r (command1 r.str) s).server

  abbrev pub answers : List Request → List Bytes
  answers [] = []
  answers (r ∷ rs) = answer key_delete r (command1 r.str) ∷ answers rs

  -- What admin1.c does with each line: it is sent, and its answer printed.
  abbrev pub shown : List Request → List Action
  shown [] = []
  shown (r ∷ rs) =
      send wfd r.str ∷ print (answer key_delete r (command1 r.str) ++ (10 ∷ [])) ∷ shown rs

  goodbye-rounds :
      (s : Server) (buf : Bytes)
      → blocking_loop (rounds key_delete (goodbye ∷ []) s) buf ≡ trace leaves (ended 0)
  unfolding blocking_loop rounds heard execute1 command1 strcmp_eq strncmp_eq contains fgets is_exit
      sent_to c_str
  goodbye-rounds s buf = refl

  pub user-rounds :
      (rs : List Request) (s : Server) (buf : Bytes)
      → AllServed rs s
      → blocking_loop (rounds key_delete (rs ++ (goodbye ∷ [])) s) buf
        ≡ trace (shown rs ++ leaves) (ended 0)
  unfolding blocking_loop rounds heard fgets
  user-rounds [] s buf h = goodbye-rounds s buf
  user-rounds (r ∷ rs) s buf (stays, served, h) =
      let (sent, runs) = Served-answered r (command1 r.str) s served in
      let (whole, short) = answer-IsText r (command1 r.str) in
      let fits : ltb (length (answer key_delete r (command1 r.str))) 1024 ≡ true =
        ground (arith, short) in
      rw
        (
          sent,
          runs,
          append-nil,
          c_str-whole (answer key_delete r (command1 r.str)) whole,
          fits,
          stays,
        )
        (ap
          (after (send wfd r.str ∷ print (answer key_delete r (command1 r.str) ++ (10 ∷ [])) ∷ []))
          (user-rounds rs (execute1 key_delete r (command1 r.str) s).server r.str h))

  goodbye-server :
      (s : Server)
      → (sent_to wfd (procon1_loop key_delete (goodbye ∷ []) s).acts ≡ [])
        × ((procon1_loop key_delete (goodbye ∷ []) s).status ≡ ended 0)
  unfolding procon1_loop execute1 command1 strcmp_eq contains sent_to
  goodbye-server s = (refl, refl)

  pub server-rounds :
      (rs : List Request) (s : Server)
      → AllServed rs s
      → (sent_to wfd (procon1_loop key_delete (rs ++ (goodbye ∷ [])) s).acts ≡ answers rs)
        × ((procon1_loop key_delete (rs ++ (goodbye ∷ [])) s).status ≡ ended 0)
  unfolding procon1_loop
  server-rounds [] s h = goodbye-server s
  server-rounds (r ∷ rs) s (stays, served, h) =
      let d = execute1 key_delete r (command1 r.str) s in
      let (sent, runs) = Served-answered r (command1 r.str) s served in
      let (rest, ends) = server-rounds rs d.server h in
      rw runs (
        sent_to-append wfd d.acts (procon1_loop key_delete (rs ++ (goodbye ∷ [])) d.server).acts
            ∙ rw (sent, rest) refl,
        ends,
      )
