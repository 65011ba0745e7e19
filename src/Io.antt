-- ===== src/Io.antt =====
-- What a program does to the outside: a trace of its output, sends and closes. A run is the trace,
-- and whether the program has ended.
use git.Base.{ℕ, ◌≡◌, refl, List, [], ◌∷◌, ◌++◌, ◌==◌, if◌then◌else◌, arith}
use git.Base.Bytes.{Bytes}

pub data Action : Type 0 where
  print : Bytes → Action  -- printf, perror
  send : ℕ → Bytes → Action  -- send, sendto, write
  close : ℕ → Action

pub data Status : Type 0 where
  running : Status  -- waits for the next input
  ended : ℕ → Status  -- break, return or exit, with the code
  stuck : Status  -- blocked for ever
  crashed : Status  -- an access out of bounds

pub record Trace : Type 0 where
  pub acts : List Action
  pub status : Status

abbrev pub trace : List Action → Status → Trace
trace acts status = record { acts = acts; status = status }

-- `acts`, and then what `t` does.
abbrev pub after : List Action → Trace → Trace
after acts t = record { acts = acts ++ t.acts; status = t.status }

-- The messages sent to `fd`, in order.
unfoldable pub sent_to : ℕ → List Action → List Bytes
sent_to fd [] = []
sent_to fd (print b ∷ acts) = sent_to fd acts
sent_to fd (send f b ∷ acts) = if f == fd then b ∷ sent_to fd acts else sent_to fd acts
sent_to fd (close f ∷ acts) = sent_to fd acts

pub sent_to-append :
    (fd : ℕ) (xs ys : List Action) → sent_to fd (xs ++ ys) ≡ sent_to fd xs ++ sent_to fd ys
unfolding sent_to
sent_to-append fd [] ys = refl
sent_to-append fd (print b ∷ xs) ys = sent_to-append fd xs ys
sent_to-append fd (send f b ∷ xs) ys = ground (arith, sent_to-append fd xs ys)
sent_to-append fd (close f ∷ xs) ys = sent_to-append fd xs ys

-- The sockets closed, in order.
unfoldable pub closed : List Action → List ℕ
closed [] = []
closed (print b ∷ acts) = closed acts
closed (send f b ∷ acts) = closed acts
closed (close f ∷ acts) = f ∷ closed acts
