-- ===== src/TcpClients/Sending.antt =====
-- What t1c.c sends to its room.
use git.Base.{
  ◌+◌, ◌<◌, ◌≡◌, ap, true, false, List, [], ◌∷◌, ◌++◌, ltb, length, length-append, arith,
}
use git.Base.Bytes.{Bytes, codes, strcmp_eq}
use git.Io.{Action, send, close, ended, trace, after}
use git.TcpClients.Programs.{
  sockfd, has_entered, has_left, name_size, msg_size, send_loop, t1c_main,
}

-- Words other than "q" that fit behind the name.
abbrev pub AllWords : Bytes → List Bytes → Type 0
AllWords name [] = Unit {0}
AllWords name (w ∷ ws) =
    ((strcmp_eq w (codes "q") ≡ false) × (length name + length w < 254)) × AllWords name ws

-- Each word behind the name, and the two messages of the end.
abbrev pub said : Bytes → List Bytes → List Action
said name [] =
    send sockfd (name ++ (b':' ∷ codes "q")) ∷ send sockfd (name ++ has_left) ∷ close sockfd ∷ []
said name (w ∷ ws) = send sockfd (name ++ (b':' ∷ w)) ∷ said name ws

module _ (name : Bytes) (small : length name < name_size) where
  msg-fits :
      (w : Bytes) → length name + length w < 254 → ltb (length (name ++ (b':' ∷ w))) msg_size ≡ true
  msg-fits w h = ground (arith, length-append name (b':' ∷ w), h)

  send_loop-said :
      (words rest : List Bytes)
      → AllWords name words
      → send_loop name (words ++ (codes "q" ∷ rest)) ≡ trace (said name words) (ended 0)
  unfolding send_loop strcmp_eq
  send_loop-said [] rest h = rw (msg-fits (codes "q") (omega (arith, small)))
  send_loop-said (w ∷ ws) rest ((other, short), h) =
      rw (msg-fits w short, other)
        (ap (after (send sockfd (name ++ (b':' ∷ w)) ∷ [])) (send_loop-said ws rest h))

  -- A user of t1c.c with a name of fewer than 30 bytes who types words and then "q": the room is told of
  -- the arrival, of each word and of the "q" under the name, and of the departure, in this order; the
  -- socket is closed and the program ends with 0, whatever is left on its input.
  pub t1c_main-said :
      (words rest : List Bytes)
      → AllWords name words
      → t1c_main true name (words ++ (codes "q" ∷ rest))
        ≡ trace (send sockfd (name ++ has_entered) ∷ said name words) (ended 0)
  unfolding t1c_main
  t1c_main-said words rest h =
      let fits : ltb (length name) name_size ≡ true = ground (arith, small) in
      rw (fits, send_loop-said words rest h)
