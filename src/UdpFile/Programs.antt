-- ===== src/UdpFile/Programs.antt =====
-- Both programs, with the results of the calls as arguments.
use git.Base.{ℕ, suc, Bool, not, List, [], ◌∷◌, ◌++◌, if◌then◌else◌, ltb, length}
use git.Base.Bytes.{write_text, Bytes, codes, c_str, strncmp_eq, decimal}
use git.Io.{print, send, close, running, ended, crashed, Trace, trace, after}

abbrev pub sockfd : ℕ
sockfd = 3

-- `fgets(str1, 80, fp)`: a line, or NULL, which leaves `str1` as it is.
pub data Line : Type 0 where
  line : Bytes → Line
  end_of_file : Line

unfoldable pub fgets : Line → Bytes → Bytes
fgets (line l) str = l
fgets end_of_file str = str

-- `char buf[80]`
abbrev pub buf_size : ℕ
buf_size = 80

-- The last part of c.c: "stop", and the end.
unfoldable pub send_stop : Bool → Bytes → Trace
send_stop ok buf =
    let buf' = write_text (codes "stop" ++ (10 ∷ [])) buf in
    if ok
    then trace (send sockfd buf' ∷ close sockfd ∷ []) (ended 0)
    else trace (print (codes "send") ∷ []) (ended 1)

-- The loop of c.c over its lines, from round `i`: `sends` tells for each round whether `sendto`
-- succeeds. A text of 80 bytes or more overruns `buf`.
unfoldable pub send_lines : ℕ → List (Line × Bool) → Bool → Bytes → Bytes → Trace
send_lines i [] stop_ok str1 buf = send_stop stop_ok buf
send_lines i ((l, ok) ∷ rest) stop_ok str1 buf =
    let str = fgets l str1 in
    let text = decimal i ++ (b':' ∷ str) in
    let buf' = write_text text buf in
    let more = send_lines (suc i) rest stop_ok str buf' in
    if ltb (length text) buf_size
    then (if ok
        then after (print text ∷ send sockfd buf' ∷ []) more
        else trace (print text ∷ print (codes "recvfrom") ∷ []) (ended 1))
    else trace (print text ∷ []) crashed

-- `main` of c.c: `buf` and `str1` hold what was in memory.
unfoldable pub client_main :
    Bool → Bool → (Line × Bool) × (Line × Bool) × (Line × Bool) → Bool → Bytes → Bytes → Trace
client_main file_ok socket_ok (a, b, c) stop_ok str1 buf =
    if not file_ok
    then trace (print (codes "open") ∷ []) (ended 1)
    else if not socket_ok
    then trace (print (codes "socket") ∷ []) (ended 1)
    else send_lines 0 (a ∷ b ∷ c ∷ []) stop_ok str1 buf

-- What `recvfrom` gives s.c.
pub data Received : Type 0 where
  datagram : Bytes → Received
  failed : Received

-- "接收:" in UTF-8.
abbrev pub received : Bytes
received = 0xe6 ∷ 0x8e ∷ 0xa5 ∷ 0xe6 ∷ 0x94 ∷ 0xb6 ∷ b':' ∷ []

-- The loop of s.c: `char buf[256]`, of which a datagram can fill all but the NUL's place.
unfoldable pub receive_loop : List Received → Trace
receive_loop [] = trace [] running
receive_loop (failed ∷ rest) = trace (print (codes "recevfrom") ∷ []) (ended 1)
receive_loop (datagram b ∷ rest) =
    let more = receive_loop rest in
    if ltb (length b) 256
    then after (print (received ++ c_str b) ∷ []) (
        if strncmp_eq 1 (c_str b) (codes "stop") then trace (close sockfd ∷ []) (ended 0) else more)
    else trace [] crashed

unfoldable pub server_main : Bool → Bool → List Received → Trace
server_main socket_ok bind_ok rest =
    if not socket_ok
    then trace (print (codes "socket") ∷ []) (ended 1)
    else if not bind_ok
    then trace (print (codes "bind") ∷ []) (ended 1)
    else receive_loop rest
