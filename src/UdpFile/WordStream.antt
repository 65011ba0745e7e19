-- ===== src/UdpFile/WordStream.antt =====
-- What udp/s.c prints of the words of udp/c1.c.
use git.Base.{◌<◌, ◌≡◌, refl, ap, Bool, true, false, List, [], ◌∷◌, ◌++◌, ltb, length, arith}
use mathlib.Core.List.{map}
use git.Base.Bytes.{
  Bytes, codes, strncmp_eq, no_nul, write_text, c_str-write_text, length-write_text,
}
use git.Io.{Action, print, running, trace, after, sent_to}
use git.UdpFile.Programs.{sockfd, datagram, received, receive_loop, server_main}
use git.UdpFile.Words.{max_data_size, word_loop}

-- A word that fits, does not end the client, and does not begin with the s that ends the server.
pub record IsWord (w : Bytes) : Type 0 where
  pub whole : no_nul w ≡ true
  pub fits : length w < max_data_size
  pub goes_on : strncmp_eq 4 w (codes "exit") ≡ false
  pub not_s : strncmp_eq 1 w (codes "stop") ≡ false

abbrev pub AllWords : List Bytes → Type 0
AllWords [] = Unit {0}
AllWords (w ∷ ws) = IsWord w × AllWords ws

abbrev pub typed : List Bytes → List (Bytes × Bool)
typed [] = []
typed (w ∷ ws) = (w, true) ∷ typed ws

abbrev pub prints : List Bytes → List Action
prints [] = []
prints (w ∷ ws) = print (received ++ w) ∷ prints ws

-- Words that fit and begin neither with "exit" nor with an s are printed by the server, each once and
-- in order, if every call succeeds and every datagram arrives; both programs go on.
words-printed :
    (words : List Bytes) (buf : Bytes)
    → AllWords words
    → length buf ≡ max_data_size
    → (server_main true true (map datagram (sent_to sockfd (word_loop (typed words) buf).acts))
        ≡ trace (prints words) running)
      × ((word_loop (typed words) buf).status ≡ running)
unfolding server_main receive_loop word_loop sent_to
words-printed [] buf h e = (refl, refl)
words-printed (w ∷ ws) buf (p, h) e =
    let buf' = write_text w buf in
    let fits : ltb (length w) max_data_size ≡ true = ground (arith, p.fits) in
    let size : length buf' ≡ max_data_size = omega (arith, length-write_text w buf, p.fits, e) in
    let small : ltb (length buf') 256 ≡ true = ground (arith, size) in
    let (shown, on) = words-printed ws buf' h size in
    rw (fits, p.goes_on, small, c_str-write_text w buf p.whole, p.not_s)
      (ap (after (print (received ++ w) ∷ [])) shown, on)
