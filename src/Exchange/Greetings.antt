-- ===== src/Exchange/Greetings.antt =====
-- What the two programs print of each other's greetings.
use git.Base.{ℕ, zero, suc, ◌≤◌, ◌≡◌, refl, true, some, [], ◌∷◌, ◌++◌, ltb, length, take, arith}
use git.Base.Bytes.{Bytes, c_str}
use git.Io.{print, send, close, ended, trace}
use git.Exchange.Programs.{
  sockfd, client_fd, got, server_words, client_words, from_literal, greet, answer,
}

length-take : (n : ℕ) (b : Bytes) → length (take n b) ≤ n
length-take zero b = omega arith
length-take (suc n) [] = omega arith
length-take (suc n) (x ∷ b) = omega (arith, length-take n b)

-- Whatever memory holds behind the literals: if each `recv` gives what the other has sent, both
-- programs print exactly the other's greeting, send their own with what lies behind it, close the
-- connection and end with 0.
greetings :
    (server_beyond client_beyond : Bytes)
    → (answer server_beyond true (from_literal 30 client_words client_beyond)
        ≡ trace
            (send client_fd (from_literal 26 server_words server_beyond)
              ∷ print (got ++ client_words)
              ∷ close client_fd
              ∷ [])
            (ended 0))
      × (greet client_beyond (some (from_literal 26 server_words server_beyond))
          ≡ trace
              (print (got ++ server_words)
                ∷ send sockfd (from_literal 30 client_words client_beyond)
                ∷ close sockfd
                ∷ [])
              (ended 0))
unfolding greet answer c_str
greetings server_beyond client_beyond =
    let fits : ltb (length (from_literal 26 server_words server_beyond)) 30 ≡ true =
      ground (arith, length-take 26 (server_words ++ (0 ∷ server_beyond))) in
    (refl, rw fits)
