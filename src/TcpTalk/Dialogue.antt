-- ===== src/TcpTalk/Dialogue.antt =====
-- The client of c.c and a thread of s1.c, or a child of s.c, that talk to each other in turns.
use git.Base.{
  ℕ, suc, ◌<◌, ◌≡◌, refl, ap, true, false, Option, some, List, [], ◌∷◌, ◌++◌, append_assoc, ltb,
  length, length-append, length-set, drop, set, arith,
}
use git.Base.Bytes.{
  cut_text-line, Bytes, codes, c_str, decimal, write_text, no_nul, c_str-append, c_str-write_text,
  length-write_text,
}
use git.Io.{Action, print, send, close, running, Trace, trace, after, sent_to}
use git.TcpTalk.Programs.{buf_size, is_quit, cut, fgets_into, read_into, sock, client_loop, talk}

-- A text that fits with its newline, and does not end the talk.
pub record IsPlain (t : Bytes) : Type 0 where
  pub whole : no_nul t ≡ true
  pub fits : length t < 1023
  pub goes_on : is_quit t ≡ false

-- What the client's user types in each round, and what the server's user answers.
abbrev pub AllPlain : List (Bytes × Bytes) → Type 0
AllPlain [] = Unit {0}
AllPlain ((asked, answered) ∷ rest) = (IsPlain asked × IsPlain answered) × AllPlain rest

abbrev pub typed : Bytes → Option Bytes
typed t = some (t ++ (10 ∷ []))

-- The rounds of the client, whose `read` gives the answer and its NUL.
abbrev pub client_rounds : List (Bytes × Bytes) → List (Option Bytes × Option Bytes)
client_rounds [] = []
client_rounds ((asked, answered) ∷ rest) =
    (typed asked, some (answered ++ (0 ∷ []))) ∷ client_rounds rest

-- The rounds of the server, each of whose `read`s gives one of `packets`.
abbrev pub server_rounds : List Bytes → List (Bytes × Bytes) → List (Option Bytes × Option Bytes)
server_rounds (b ∷ packets) ((asked, answered) ∷ rest) =
    (some b, typed answered) ∷ server_rounds packets rest
server_rounds _ _ = []

-- What the server shows and sends.
abbrev pub server_acts : ℕ → List (Bytes × Bytes) → List Action
server_acts fd [] = []
server_acts fd ((asked, answered) ∷ rest) =
    print (codes "client " ++ decimal fd ++ (b':' ∷ asked))
    ∷ print (codes "server:")
    ∷ send fd (answered ++ (0 ∷ []))
    ∷ print (codes "wait...")
    ∷ server_acts fd rest

-- What the client prints.
unfoldable pub printed : List Action → List Bytes
printed [] = []
printed (print b ∷ acts) = b ∷ printed acts
printed (send fd b ∷ acts) = printed acts
printed (close fd ∷ acts) = printed acts

abbrev pub client_prints : List (Bytes × Bytes) → List Bytes
client_prints [] = []
client_prints ((asked, answered) ∷ rest) =
    codes "client:" ∷ codes "wait.." ∷ (codes "server:" ++ answered) ∷ client_prints rest

set-append : (t rest : Bytes) (x y : ℕ) → set (t ++ (x ∷ rest)) (length t) y ≡ t ++ (y ∷ rest)
set-append [] rest x y = refl
set-append (z ∷ t) rest x y = ap (λ (k : Bytes). z ∷ k) (set-append t rest x y)

no_nul-line : (t : Bytes) → no_nul t ≡ true → no_nul (t ++ (10 ∷ [])) ≡ true
unfolding no_nul
no_nul-line [] h = refl
no_nul-line (x ∷ t) h = ground (arith, no_nul-line t)

cut-line : (t buf : Bytes) → c_str buf ≡ t ++ (10 ∷ []) → cut buf ≡ some (set buf (length t) 0)
unfolding cut
cut-line [] buf h = rw (h, cut) refl
cut-line (x ∷ t) buf h =
    let e : length (t ++ (10 ∷ [])) ≡ suc (length t) = omega (arith, length-append t (10 ∷ [])) in
    rw (h, cut, e) refl

c_str-line : (t : Bytes) → no_nul t ≡ true → c_str (t ++ (10 ∷ [])) ≡ t ++ (10 ∷ [])
unfolding c_str no_nul
c_str-line [] h = refl
c_str-line (x ∷ t) h = ground (arith, c_str-line t)

-- The client's buffer once the line is cut.
abbrev next_buf : Bytes → Bytes → Bytes
next_buf t buf = set (write_text (t ++ (10 ∷ [])) buf) (length t) 0

c_str-next_buf : (t buf : Bytes) → no_nul t ≡ true → c_str (next_buf t buf) ≡ t
unfolding write_text
c_str-next_buf t buf h =
    let rest : Bytes = 0 ∷ drop (suc (length (t ++ (10 ∷ [])))) buf in
    rw (append_assoc t (10 ∷ []) rest, set-append t rest 10 0) (c_str-append t rest h)

length-next_buf :
    (t buf : Bytes) → length t < 1023 → length buf ≡ buf_size → length (next_buf t buf) ≡ buf_size
length-next_buf t buf h e = omega (
  arith,
  length-set (write_text (t ++ (10 ∷ [])) buf) (length t) 0,
  length-write_text (t ++ (10 ∷ [])) buf,
  length-append t (10 ∷ []),
)

-- An answer with its NUL, read into a buffer.
read_into-answer : (t buf : Bytes) → read_into (some (t ++ (0 ∷ []))) buf ≡ write_text t buf
unfolding read_into write_text
read_into-answer t buf =
    let e : length (t ++ (0 ∷ [])) ≡ suc (length t) = omega (arith, length-append t (0 ∷ [])) in
    rw (append_assoc t (0 ∷ []) (drop (length (t ++ (0 ∷ []))) buf), e)

client_loop-round :
    (asked answered buf : Bytes) (rest : List (Option Bytes × Option Bytes))
    → IsPlain asked
    → IsPlain answered
    → client_loop buf ((typed asked, some (answered ++ (0 ∷ []))) ∷ rest)
      ≡ after
          (print (codes "client:")
            ∷ send sock (next_buf asked buf)
            ∷ print (codes "wait..")
            ∷ print (codes "server:" ++ answered)
            ∷ [])
          (client_loop (write_text answered (next_buf asked buf)) rest)
unfolding client_loop fgets_into
client_loop-round asked answered buf rest p q =
    let small : ltb (length answered) buf_size ≡ true = ground (arith, q.fits) in
    rw (
      client_loop,
      cut-line asked (write_text (asked ++ (10 ∷ [])) buf)
          (c_str-write_text (asked ++ (10 ∷ [])) buf (no_nul-line asked p.whole)),
      c_str-next_buf asked buf p.whole,
      p.goes_on,
      read_into-answer answered (next_buf asked buf),
      c_str-write_text answered (next_buf asked buf) q.whole,
      small,
    )

talk-round :
    (fd : ℕ) (quit : Trace) (packet asked answered : Bytes)
    (rest : List (Option Bytes × Option Bytes))
    → c_str packet ≡ asked
    → IsPlain asked
    → IsPlain answered
    → talk fd quit ((some packet, typed answered) ∷ rest)
      ≡ after
          (print (codes "client " ++ decimal fd ++ (b':' ∷ asked))
            ∷ print (codes "server:")
            ∷ send fd (answered ++ (0 ∷ []))
            ∷ print (codes "wait...")
            ∷ [])
          (talk fd quit rest)
unfolding talk
talk-round fd quit packet asked answered rest e p q =
    let small : ltb (length asked) buf_size ≡ true = ground (arith, p.fits) in
    let line : c_str (answered ++ (10 ∷ [])) ≡ answered ++ (10 ∷ []) =
      c_str-line answered q.whole in
    rw (e, small, line, cut_text-line answered, q.goes_on)

-- For every sequence of plain questions and answers, typed in turns: if the server's `read`s give the
-- packets that the client sends, one each, and the client's the answers, then the server shows each
-- question, sends exactly those answers with their NUL, and the client prints each of them, in
-- order; and both go on. The client's buffer may hold anything at first.
pub dialogue :
    (fd : ℕ) (quit : Trace) (rounds : List (Bytes × Bytes)) (buf : Bytes)
    → AllPlain rounds
    → length buf ≡ buf_size
    → let client : Trace = client_loop buf (client_rounds rounds) in
      (talk fd quit (server_rounds (sent_to sock client.acts) rounds)
        ≡ trace (server_acts fd rounds) running)
      × (printed client.acts ≡ client_prints rounds)
      × (client.status ≡ running)
unfolding client_loop talk sent_to printed
dialogue fd quit [] buf h e = (refl, refl, refl)
dialogue fd quit ((asked, answered) ∷ rest) buf ((p, q), h) e =
    let buf' : Bytes = write_text answered (next_buf asked buf) in
    let e' : length buf' ≡ buf_size = omega (
      arith,
      length-write_text answered (next_buf asked buf),
      length-next_buf asked buf p.fits e,
      q.fits,
    ) in
    let (served, shown, on) = dialogue fd quit rest buf' h e' in
    rw (client_loop-round asked answered buf (client_rounds rest) p q) (
      rw
        (talk-round fd quit (next_buf asked buf) asked answered
          (server_rounds (sent_to sock (client_loop buf' (client_rounds rest)).acts) rest)
          (c_str-next_buf asked buf p.whole) p q)
        (
          rw served refl,
          ap (λ l. codes "client:" ∷ codes "wait.." ∷ (codes "server:" ++ answered) ∷ l) shown,
          on,
        ))
