-- ===== src/UdpFile/RoundTrip.antt =====
-- What the server prints of what the client sends.
use git.Base.{
  ℕ, suc, ◌+◌, ◌<◌, ◌≡◌, refl, ap, ◌∙◌, Bool, true, false, List, [], ◌∷◌, ◌++◌, ltb, length, arith,
}
use mathlib.Core.List.{map}
use git.Base.Bytes.{
  no_nul, write_text, c_str-write_text, length-write_text, Bytes, codes, strncmp_eq, decimal,
}
use git.Io.{Action, print, close, ended, Trace, trace, after, sent_to}
use git.UdpFile.Programs.{
  sockfd, Line, line, fgets, buf_size, send_stop, send_lines, client_main, Received, datagram,
  received, receive_loop, server_main,
}

-- The text of round `i`.
abbrev pub text : ℕ → Bytes → Bytes
text i l = decimal i ++ (b':' ∷ l)

-- A text that arrives whole and does not stop the server.
pub record IsPlain (t : Bytes) : Type 0 where
  pub whole : no_nul t ≡ true
  pub fits : length t < buf_size
  pub goes_on : strncmp_eq 1 t (codes "stop") ≡ false

abbrev pub AllPlain : ℕ → List Bytes → Type 0
AllPlain i [] = Unit {0}
AllPlain i (l ∷ ls) = IsPlain (text i l) × AllPlain (suc i) ls

abbrev lines_ok : List Bytes → List (Line × Bool)
lines_ok [] = []
lines_ok (l ∷ ls) = (line l, true) ∷ lines_ok ls

-- What the server prints of the lines, and of the "stop" behind them.
unfoldable pub prints : ℕ → List Bytes → List Action
prints i [] = print (received ++ (codes "stop" ++ (10 ∷ []))) ∷ close sockfd ∷ []
prints i (l ∷ ls) = print (received ++ text i l) ∷ prints (suc i) ls

-- A plain text in a buffer of 80 bytes is printed, and the server goes on.
receive_plain :
    (t buf : Bytes) (rest : List Received)
    → IsPlain t
    → length buf ≡ buf_size
    → receive_loop (datagram (write_text t buf) ∷ rest)
      ≡ after (print (received ++ t) ∷ []) (receive_loop rest)
unfolding receive_loop
receive_plain t buf rest p e =
    let small : ltb (length (write_text t buf)) 256 ≡ true =
      ground (arith, length-write_text t buf, p.fits) in
    rw (small, c_str-write_text t buf p.whole, p.goes_on)

receive_stop :
    (buf : Bytes) (rest : List Received)
    → length buf ≡ buf_size
    → receive_loop (datagram (write_text (codes "stop" ++ (10 ∷ [])) buf) ∷ rest)
      ≡ trace (prints 0 []) (ended 0)
unfolding receive_loop prints strncmp_eq
receive_stop buf rest e =
    let t = codes "stop" ++ (10 ∷ []) in
    let small : ltb (length (write_text t buf)) 256 ≡ true =
      ground (arith, length-write_text t buf) in
    rw (small, c_str-write_text t buf (unfold no_nul in refl))

send_lines-prints :
    (ls : List Bytes) (i : ℕ) (str buf : Bytes)
    → AllPlain i ls
    → length buf ≡ buf_size
    → receive_loop (map datagram (sent_to sockfd (send_lines i (lines_ok ls) true str buf).acts))
      ≡ trace (prints i ls) (ended 0)
unfolding send_lines send_stop sent_to prints fgets
send_lines-prints [] i str buf all e = receive_stop buf [] e
send_lines-prints (l ∷ ls) i str buf all e =
    let p = all.0 in
    let small : ltb (length (text i l)) buf_size ≡ true = ground (arith, p.fits) in
    rw small (
      receive_plain (text i l) buf _ p e
      ∙ ap (after (print (received ++ text i l) ∷ [])) (
          send_lines-prints ls (suc i) l (write_text (text i l) buf) all.1
            (length-write_text (text i l) buf (omega (arith, p.fits)) ∙ e)))

IsPlain-digit :
    (i : ℕ) (l : Bytes)
    → i < 3
    → decimal i ≡ (b'0' + i) ∷ []
    → no_nul l ≡ true
    → length l < 78
    → IsPlain (text i l)
unfolding no_nul strncmp_eq
IsPlain-digit i l small e whole fits =
    rw e (record {
      whole = ground (arith, whole);
      fits = omega arith;
      goes_on = ground (arith, small);
    })

-- Every call of the client succeeds and every text fits: it comes to its end.
send_lines-ends :
    (ls : List Bytes) (i : ℕ) (str buf : Bytes)
    → AllPlain i ls
    → (send_lines i (lines_ok ls) true str buf).status ≡ ended 0
unfolding send_lines send_stop fgets
send_lines-ends [] i str buf all = refl
send_lines-ends (l ∷ ls) i str buf all =
    let small : ltb (length (text i l)) buf_size ≡ true = ground (arith, all.0.fits) in
    rw small (send_lines-ends ls (suc i) l (write_text (text i l) buf) all.1)

pub client-server :
    (a b c str1 buf : Bytes)
    → no_nul a ≡ true
    → no_nul b ≡ true
    → no_nul c ≡ true
    → length a < 78
    → length b < 78
    → length c < 78
    → length buf ≡ buf_size
    → let client : Trace =
        client_main true true ((line a, true), (line b, true), (line c, true)) true str1 buf in
      (server_main true true (map datagram (sent_to sockfd client.acts))
        ≡ trace (prints 0 (a ∷ b ∷ c ∷ [])) (ended 0))
      × (client.status ≡ ended 0)
unfolding server_main client_main decimal
client-server a b c str1 buf wa wb wc la lb lc e =
    let plain : AllPlain 0 (a ∷ b ∷ c ∷ []) = (
      IsPlain-digit 0 a (omega arith) refl wa la,
      (
        IsPlain-digit 1 b (omega arith) refl wb lb,
        (IsPlain-digit 2 c (omega arith) refl wc lc, tt),
      ),
    ) in
    (
      send_lines-prints (a ∷ b ∷ c ∷ []) 0 str1 buf plain e,
      send_lines-ends (a ∷ b ∷ c ∷ []) 0 str1 buf plain,
    )
