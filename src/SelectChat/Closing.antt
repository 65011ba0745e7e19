-- ===== src/SelectChat/Closing.antt =====
-- How the loops end, and what they send.
use mathlib.Core.Path.{subst}
use git.Base.{
  Bool-cases, inl, inr, if◌then◌else◌, ltb, ◌==◌, sym, ℕ, ◌≡◌, refl, ap, Bool, true, false, ◌⊎◌,
  Option, none, some, List, [], ◌∷◌, ◌++◌, length, append-nil, arith,
}
use git.Base.Bytes.{Bytes, c_str, codes, chop, strncmp_eq}
use git.Io.{Action, print, send, close, Status, running, ended, crashed, Trace, closed}
use git.SelectChat.Loop.{
  max_data_size, Line, Received, bytes, finished, failed, Ready, Round, timeout, error, ready,
  Style, Branch, branch, fgets, edit, on_typed, on_received, on_exception, then_branch, chat_loop,
  server_style, client_style,
}

closed-append : (xs ys : List Action) → closed (xs ++ ys) ≡ closed xs ++ closed ys
unfolding closed
closed-append [] ys = refl
closed-append (print b ∷ xs) ys = closed-append xs ys
closed-append (send f b ∷ xs) ys = closed-append xs ys
closed-append (close f ∷ xs) ys = ap (λ (l : List ℕ). f ∷ l) (closed-append xs ys)

-- Its messages close nothing.
abbrev pub IsQuiet : Style → Type 0
IsQuiet style = (b : Bytes) → closed (style.shows b) ≡ []

-- Why a loop ends: "quit" is typed or the peer has closed, an exception, a `select` that fails, a write
-- outside a buffer.
pub data Cause : Type 0 where
  none_yet farewell exception select_error overrun : Cause

unfoldable pub typed_cause : Option Line → Bytes → Cause
typed_cause none str = none_yet
typed_cause (some l) str =
    if length (fgets l str) == 0
    then overrun
    else if strncmp_eq 4 (codes "quit") (chop (fgets l str))
    then farewell
    else none_yet

unfoldable pub received_cause : Option Received → Cause
received_cause none = none_yet
received_cause (some finished) = farewell
received_cause (some failed) = overrun
received_cause (some (bytes b)) = if ltb (length b) max_data_size then none_yet else overrun

unfoldable pub exception_cause : Bool → Cause
exception_cause e = if e then exception else none_yet

abbrev pub first : Cause → Cause → Cause
first none_yet later = later
first farewell later = farewell
first exception later = exception
first select_error later = select_error
first overrun later = overrun

-- The first cause in the rounds: in a round standard input counts first, then the peer.
unfoldable pub cause : List Round → Bytes → Cause
cause [] str = none_yet
cause (timeout ∷ rest) str = cause rest str
cause (error ∷ rest) str = select_error
cause (ready r ∷ rest) str = first (typed_cause r.typed str) (
    first (received_cause r.received)
      (first (exception_cause r.exception) (cause rest (edit r.typed str))))

abbrev pub status_of : Cause → Status
status_of none_yet = running
status_of farewell = ended 0
status_of exception = ended 0
status_of select_error = ended 1
status_of overrun = crashed

-- The sockets closed at a farewell are `normal`, and on an exception `raised`.
abbrev pub closed_by : (normal raised : List ℕ) → Cause → List ℕ
closed_by normal raised none_yet = []
closed_by normal raised farewell = normal
closed_by normal raised exception = raised
closed_by normal raised select_error = []
closed_by normal raised overrun = []

abbrev pub Closes : (normal raised : List ℕ) → Cause → Status → List ℕ → Type 0
Closes normal raised c status fds = (status ≡ status_of c) × (fds ≡ closed_by normal raised c)

module _ (style : Style) (q : IsQuiet style) where
  abbrev Ends : Cause → Status → List Action → Type 0
  Ends c status acts =
      Closes (closed style.closes) (closed style.exception_closes) c status (closed acts)

  first-Ends :
      (c d : Cause) (acts : List Action) (t : Trace)
      → closed acts ≡ closed_by (closed style.closes) (closed style.exception_closes) c
      → Ends d t.status t.acts
      → Ends
          (first c d)
          (then_branch (branch acts (status_of c)) t).status
          (then_branch (branch acts (status_of c)) t).acts
  unfolding then_branch
  first-Ends none_yet d acts t e (f, g) = (f, rw (closed-append acts t.acts, e) g)
  first-Ends farewell d acts t e h = (refl, rw append-nil e)
  first-Ends exception d acts t e h = (refl, rw append-nil e)
  first-Ends select_error d acts t e h = (refl, rw append-nil e)
  first-Ends overrun d acts t e h = (refl, rw append-nil e)

  then_branch-Ends :
      (b : Branch) (c d : Cause) (t : Trace)
      → Ends c b.status b.acts
      → Ends d t.status t.acts
      → Ends (first c d) (then_branch b t).status (then_branch b t).acts
  then_branch-Ends b c d t (e, f) h =
      subst
        (λ st.
          Ends (first c d) (then_branch (branch b.acts st) t).status
            (then_branch (branch b.acts st) t).acts)
        (sym e) (first-Ends c d b.acts t f h)

  on_typed-Ends :
      (l : Option Line) (str : Bytes)
      → Ends (typed_cause l str) (on_typed style l str).status (on_typed style l str).acts
  unfolding on_typed typed_cause closed
  on_typed-Ends none str = (refl, refl)
  on_typed-Ends (some l) str = elim (Bool-cases (length (fgets l str) == 0)) [
    | inl e ↦ rw e (refl, refl)
    | inr e ↦ rw e (elim (Bool-cases (strncmp_eq 4 (codes "quit") (chop (fgets l str)))) [
      | inl quit ↦ rw quit (refl, refl)
      | inr stays ↦ rw stays (refl, refl)
    ])
  ]

  on_received-Ends :
      (r : Option Received)
      → Ends (received_cause r) (on_received style r).status (on_received style r).acts
  unfolding on_received received_cause closed
  on_received-Ends none = (refl, refl)
  on_received-Ends (some finished) = (refl, refl)
  on_received-Ends (some failed) = (refl, refl)
  on_received-Ends (some (bytes b)) = elim (Bool-cases (ltb (length b) max_data_size)) [
    | inl e ↦ rw e (refl, q (c_str b))
    | inr e ↦ rw e (refl, refl)
  ]

  on_exception-Ends :
      (e : Bool)
      → Ends (exception_cause e) (on_exception style e).status (on_exception style e).acts
  unfolding on_exception exception_cause closed
  on_exception-Ends false = (refl, refl)
  on_exception-Ends true = (refl, refl)

  chat_loop-Ends :
      (rounds : List Round) (str : Bytes)
      → Ends
          (cause rounds str)
          (chat_loop style rounds str).status
          (chat_loop style rounds str).acts
  unfolding chat_loop cause
  chat_loop-Ends [] str = unfold closed in (refl, refl)
  chat_loop-Ends (timeout ∷ rest) str = chat_loop-Ends rest str
  chat_loop-Ends (error ∷ rest) str = unfold closed in (refl, refl)
  chat_loop-Ends (ready r ∷ rest) str =
      then_branch-Ends _ (typed_cause r.typed str) _ _ (on_typed-Ends r.typed str) (
        then_branch-Ends _ (received_cause r.received) _ _ (on_received-Ends r.received) (
          then_branch-Ends _ (exception_cause r.exception) _ _ (on_exception-Ends r.exception)
            (chat_loop-Ends rest (edit r.typed str))))

-- A message of exactly 256 bytes, or a failed `recv`, writes its NUL outside the buffer, whatever
-- has been exchanged before: the round crashes unless standard input has ended it first.
chat_loop-crashes :
    (style : Style) (r : Ready) (rest : List Round) (str b : Bytes)
    → (on_typed style r.typed str).status ≡ running
    → (r.received ≡ some failed) ⊎ ((r.received ≡ some (bytes b)) × (length b ≡ max_data_size))
    → (chat_loop style (ready r ∷ rest) str).status ≡ crashed
unfolding chat_loop then_branch on_received
chat_loop-crashes style r rest str b goes bad = rw goes (ground (arith, bad))

-- Which sockets the loops of 95s.c and 95c.c have closed, and with which code they end, by the first cause
-- that their rounds give: after "quit" or when the peer has closed, both sockets of 95s.c, with 0; on an
-- exception only the client's, with 0; when `select` fails, none, with 1; after a write outside a buffer,
-- or while the loop goes on, none. 95c.c closes its one socket in the first two cases.
pub chat_loop-Closes :
    (name : Bytes) (rounds : List Round)
    → Closes
        (4 ∷ 3 ∷ [])
        (4 ∷ [])
        (cause rounds [])
        (chat_loop (server_style name) rounds []).status
        (closed (chat_loop (server_style name) rounds []).acts)
      × Closes
          (3 ∷ [])
          (3 ∷ [])
          (cause rounds [])
          (chat_loop (client_style name) rounds []).status
          (closed (chat_loop (client_style name) rounds []).acts)
unfolding closed
chat_loop-Closes name rounds = (
  chat_loop-Ends (server_style name) (λ b. refl) rounds [],
  chat_loop-Ends (client_style name) (λ b. refl) rounds [],
)
