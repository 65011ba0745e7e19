-- ===== src/UdpFile/Words.antt =====
-- socket/udp/c1.c, which sends typed words to the server of udp/s.c in datagrams of 30 bytes.
use git.Base.{ℕ, Bool, not, List, [], ◌∷◌, ◌++◌, if◌then◌else◌, ltb, length}
use git.Base.Bytes.{Bytes, codes, c_str, strncmp_eq, write_text}
use git.Io.{print, send, close, running, ended, crashed, Trace, trace, after}
use git.UdpFile.Programs.{sockfd}

-- `#define MAXDATASIZE 30`
abbrev pub max_data_size : ℕ
max_data_size = 30

-- "收到:" in UTF-8.
abbrev pub got : Bytes
got = 0xe6 ∷ 0x94 ∷ 0xb6 ∷ 0xe5 ∷ 0x88 ∷ 0xb0 ∷ b':' ∷ []

-- `while(1)`: each word that `scanf` reads, and whether `sendto` succeeds. A word that does not fit
-- overruns the buffer; at the end of the input `scanf` leaves it as it is.
unfoldable pub word_loop : List (Bytes × Bool) → Bytes → Trace
word_loop [] buf = trace [] running
word_loop ((word, ok) ∷ rest) buf =
    let buf' = write_text word buf in
    let more = word_loop rest buf' in
    if not (ltb (length word) max_data_size)
    then trace [] crashed
    else after (if ok then send sockfd buf' ∷ [] else print (codes "send error") ∷ []) (
        if strncmp_eq 4 word (codes "exit")
        then trace (print (got ++ c_str buf') ∷ close sockfd ∷ []) (ended 0)
        else more)

-- What `main` meets before the loop; the first socket is never used.
unfoldable words_main : ℕ → Bool → Bool → Bool → List (Bytes × Bool) → Bytes → Trace
words_main argc host_ok first_ok second_ok words buf =
    if ltb argc 2
    then trace (print (codes "please enter the server's hostname") ∷ []) (ended 1)
    else if not host_ok
    then trace (print (codes "gethostbyname error") ∷ []) (ended 1)
    else if not first_ok
    then trace (print (codes "socket create error") ∷ []) (ended 1)
    else if not second_ok
    then trace (print (codes "socket") ∷ []) (ended 1)
    else word_loop words buf
