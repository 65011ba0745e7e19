-- ===== src/Relay/Forwarding.antt =====
-- What reaches the peer, and when the loop ends.
use git.Base.{
  ◌≡◌, refl, Bool, true, false, Option, none, some, List, [], ◌∷◌, ◌++◌, ◌||◌, if◌then◌else◌, arith,
  ap, ◌∙◌,
}
use git.Base.Bytes.{Bytes}
use git.Io.{close, running, ended, trace, sent_to, sent_to-append}
use git.Relay.Loop.{
  Line, line, end_of_file, Round, timeout, ready, wfd, rfd, Style, read_peer, read_line, fgets,
  is_exit, relay_loop,
}

-- The buffer at the end of a round.
unfoldable pub buffer : Option Bytes → Option Line → Bytes
buffer none none = []
buffer (some b) none = b
buffer p (some (line l)) = l
buffer none (some end_of_file) = []
buffer (some b) (some end_of_file) = b

-- The rounds up to the first that ends with "exit" in the buffer.
unfoldable pub active : List Round → List Round
active [] = []
active (timeout ∷ rest) = active rest
active (ready p t ∷ rest) = ready p t ∷ (if is_exit (buffer p t) then [] else active rest)

-- What each round in which standard input is ready passes on: the line, or at the end of the input
-- once more what the peer has sent in the round.
unfoldable pub passed_on : List Round → List Bytes
passed_on [] = []
passed_on (timeout ∷ rest) = passed_on rest
passed_on (ready p none ∷ rest) = passed_on rest
passed_on (ready p (some l) ∷ rest) = buffer p (some l) ∷ passed_on rest

-- Its prints send nothing.
pub record IsQuiet (style : Style) : Type 0 where
  pub on_peer : (b : Bytes) → sent_to wfd (style.on_peer b) ≡ []
  pub around : sent_to wfd (style.before_line ++ style.after_line) ≡ []

-- What one round passes on.
unfoldable pub passed : Option Bytes → Option Line → List Bytes
passed p none = []
passed p (some l) = buffer p (some l) ∷ []

passed_on-ready :
    (p : Option Bytes) (t : Option Line) (rest : List Round)
    → passed_on (ready p t ∷ rest) ≡ passed p t ++ passed_on rest
unfolding passed_on passed
passed_on-ready p none rest = refl
passed_on-ready p (some l) rest = refl

module _ (style : Style) where
  buffer_lem :
      (p : Option Bytes) (t : Option Line)
      → (read_line style t (read_peer style p []).0).0 ≡ buffer p t
  unfolding read_line read_peer fgets buffer
  buffer_lem none none = refl
  buffer_lem (some b) none = refl
  buffer_lem none (some (line l)) = refl
  buffer_lem (some b) (some (line l)) = refl
  buffer_lem none (some end_of_file) = refl
  buffer_lem (some b) (some end_of_file) = refl

  module _ (q : IsQuiet style) where
    -- The end of a round, `stop` telling whether the loop ends.
    tail-passed_on :
        (stop : Bool) (rest : List Round)
        → sent_to wfd (relay_loop style rest).acts ≡ passed_on (active rest)
        → sent_to wfd
            (if stop
              then trace (close rfd ∷ close wfd ∷ []) (ended 0)
              else relay_loop style rest).acts
          ≡ passed_on (if stop then [] else active rest)
    unfolding sent_to passed_on
    tail-passed_on true rest ih = refl
    tail-passed_on false rest ih = ih

    read_peer-quiet : (p : Option Bytes) (str : Bytes) → sent_to wfd (read_peer style p str).1 ≡ []
    unfolding read_peer sent_to
    read_peer-quiet none str = refl
    read_peer-quiet (some b) str = q.on_peer b

    read_line-passed :
        (p : Option Bytes) (t : Option Line)
        → sent_to wfd (read_line style t (read_peer style p []).0).1 ≡ passed p t
    unfolding read_line fgets sent_to passed
    read_line-passed p none = refl
    read_line-passed p (some l) =
        sent_to-append wfd (style.before_line ++ style.after_line) _
        ∙ ap (λ (xs : List Bytes). xs ++ (fgets l (read_peer style p []).0 ∷ [])) q.around
        ∙ ap (λ (b : Bytes). b ∷ []) (buffer_lem p (some l))

    -- The peer is sent what `passed_on` lists, in order, up to and with the round that ends the loop.
    pub relay_loop-passed_on :
        (rounds : List Round)
        → sent_to wfd (relay_loop style rounds).acts ≡ passed_on (active rounds)
    unfolding relay_loop active
    relay_loop-passed_on [] = unfold sent_to passed_on in refl
    relay_loop-passed_on (timeout ∷ rest) = relay_loop-passed_on rest
    relay_loop-passed_on (ready p t ∷ rest) =
        rw (passed_on-ready p t, buffer_lem p t)
          (rw
            (
              sent_to-append wfd
                  ((read_peer style p []).1 ++ (read_line style t (read_peer style p []).0).1),
              sent_to-append wfd (read_peer style p []).1,
              read_peer-quiet p [],
              read_line-passed p t,
            )
            (ap (λ (xs : List Bytes). passed p t ++ xs)
              (tail-passed_on (is_exit (buffer p t)) rest (relay_loop-passed_on rest))))

-- Some round ends with "exit" in the buffer.
unfoldable pub exits : List Round → Bool
exits [] = false
exits (timeout ∷ rest) = exits rest
exits (ready p t ∷ rest) = is_exit (buffer p t) || exits rest

-- The loop ends if and only if a round ends with "exit" in the buffer.
relay_loop-exits :
    (style : Style) (rounds : List Round)
    → (relay_loop style rounds).status ≡ (if exits rounds then ended 0 else running)
unfolding relay_loop exits
relay_loop-exits style [] = refl
relay_loop-exits style (timeout ∷ rest) = relay_loop-exits style rest
relay_loop-exits style (ready p t ∷ rest) =
    rw (buffer_lem style p t) (ground (arith, relay_loop-exits style rest))

-- An "exit" from the peer is lost when another line is typed in the same round: the loop goes on.
relay_loop-exit_lost :
    (style : Style) (b l : Bytes) (rest : List Round)
    → is_exit b ≡ true
    → is_exit l ≡ false
    → ((relay_loop style (ready (some b) none ∷ rest)).status ≡ ended 0)
      × ((relay_loop style (ready (some b) (some (line l)) ∷ rest)).status
          ≡ (relay_loop style rest).status)
unfolding relay_loop read_peer read_line fgets
relay_loop-exit_lost style b l rest e n = (rw e, rw n)
