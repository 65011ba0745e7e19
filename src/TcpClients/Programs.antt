-- ===== src/TcpClients/Programs.antt =====
-- Both programs. The words and lines typed, what `recv` gives and the results of the calls are
-- arguments. Newlines are left out of what is printed.
use git.Base.{
  ℕ, suc, Bool, not, Option, none, some, List, [], ◌∷◌, ◌++◌, if◌then◌else◌, ltb, length,
}
use git.Base.Bytes.{Bytes, codes, c_str, strcmp_eq}
use git.Io.{print, send, close, running, ended, crashed, Trace, trace, after}

abbrev pub sockfd : ℕ
sockfd = 3

-- " 进入了悟空聊天室\n" and "退出了悟空聊天室\n" in UTF-8.
abbrev pub has_entered : Bytes
has_entered =
    0x20 ∷ 0xe8 ∷ 0xbf ∷ 0x9b ∷ 0xe5 ∷ 0x85 ∷ 0xa5 ∷ 0xe4 ∷ 0xba ∷ 0x86 ∷ 0xe6 ∷ 0x82 ∷ 0x9f ∷ 0xe7
    ∷ 0xa9 ∷ 0xba ∷ 0xe8 ∷ 0x81 ∷ 0x8a ∷ 0xe5 ∷ 0xa4 ∷ 0xa9 ∷ 0xe5 ∷ 0xae ∷ 0xa4 ∷ 0x0a ∷ []

abbrev pub has_left : Bytes
has_left =
    0xe9 ∷ 0x80 ∷ 0x80 ∷ 0xe5 ∷ 0x87 ∷ 0xba ∷ 0xe4 ∷ 0xba ∷ 0x86 ∷ 0xe6 ∷ 0x82 ∷ 0x9f ∷ 0xe7 ∷ 0xa9
    ∷ 0xba ∷ 0xe8 ∷ 0x81 ∷ 0x8a ∷ 0xe5 ∷ 0xa4 ∷ 0xa9 ∷ 0xe5 ∷ 0xae ∷ 0xa4 ∷ 0x0a ∷ []

-- `char name[30]`, and the 255 bytes of `buf`, `msg1` and `msg2`.
abbrev pub name_size : ℕ
name_size = 30

abbrev pub msg_size : ℕ
msg_size = 255

-- `pthread_run` of t1c.c: what `recv` leaves in the cleared buffer, nothing at the end of the stream or
-- on an error. A buffer without a NUL is read past its end by `%s`.
unfoldable pub pthread_run : List Bytes → Trace
pthread_run [] = trace [] running
pthread_run (b ∷ rest) =
    let more = pthread_run rest in
    if ltb (length (c_str b)) msg_size then after (print (c_str b) ∷ []) more else trace [] crashed

-- `while(1)` of t1c.c: each word that `scanf` reads, none at the end of input.
unfoldable pub send_loop : Bytes → List Bytes → Trace
send_loop name [] = trace [] running
send_loop name (msg1 ∷ rest) =
    let more = send_loop name rest in
    let msg2 = name ++ (b':' ∷ msg1) in
    if not (ltb (length msg2) msg_size)
    then trace [] crashed
    else after (send sockfd msg2 ∷ []) (
        if strcmp_eq msg1 (codes "q")
        then trace (send sockfd (name ++ has_left) ∷ close sockfd ∷ []) (ended 0)
        else more)

-- `main` of t1c.c; the result of `connect` is not looked at.
unfoldable pub t1c_main : Bool → Bytes → List Bytes → Trace
t1c_main socket_ok name words =
    if not socket_ok
    then trace (print (codes "socket") ∷ []) (ended 255)
    else if not (ltb (length name) name_size)
    then trace [] crashed
    else after (send sockfd (name ++ has_entered) ∷ []) (send_loop name words)

-- `char buf[1024]` of t2c.c
abbrev pub buf_size : ℕ
buf_size = 1024

-- The child of t2c.c: each line that `gets` reads, none at the end of input, and whether `send` returns
-- more than 0. A line that does not fit overruns the buffer.
unfoldable pub typing_loop : List (Bytes × Bool) → Trace
typing_loop [] = trace [] running
typing_loop ((line, ok) ∷ rest) =
    let more = typing_loop rest in
    if not (ltb (length line) buf_size)
    then trace [] crashed
    else if ok
    then after (send sockfd (line ++ (0 ∷ [])) ∷ []) more
    else trace (close sockfd ∷ []) (ended 0)

-- "连接服务器成功!" in UTF-8.
abbrev pub connected : Bytes
connected =
    0xe8 ∷ 0xbf ∷ 0x9e ∷ 0xe6 ∷ 0x8e ∷ 0xa5 ∷ 0xe6 ∷ 0x9c ∷ 0x8d ∷ 0xe5 ∷ 0x8a ∷ 0xa1 ∷ 0xe5 ∷ 0x99
    ∷ 0xa8 ∷ 0xe6 ∷ 0x88 ∷ 0x90 ∷ 0xe5 ∷ 0x8a ∷ 0x9f ∷ 0x21 ∷ []

-- What `fork` makes, with what that process goes through.
pub data Fork : Type 0 where
  no_process : Fork
  in_child : List (Bytes × Bool) → Fork
  in_parent : List (Option Bytes) → Fork

module _ (ctime : ℕ → Bytes) where
  -- The parent of t2c.c: what `recv` gives, `none` for 0 or less; `ctime i` is the time of round `i`.
  unfoldable pub showing_loop : ℕ → List (Option Bytes) → Trace
  showing_loop i [] = trace [] running
  showing_loop i (none ∷ rest) = trace (close sockfd ∷ []) (ended 0)
  showing_loop i (some b ∷ rest) =
      let more = showing_loop (suc i) rest in
      if ltb (length (c_str b)) buf_size
      then after (print (ctime i) ∷ print (c_str b) ∷ []) more
      else trace (print (ctime i) ∷ []) crashed

  unfoldable pub processes : Fork → Trace
  processes no_process = trace (print (codes "fork") ∷ []) (ended 255)
  processes (in_child lines) = typing_loop lines
  processes (in_parent reads) = showing_loop 0 reads

  -- `main` of t2c.c
  unfoldable pub t2c_main : Bool → Bool → Bool → Fork → Trace
  t2c_main args_ok socket_ok connect_ok fork =
      if not args_ok
      then trace (print (codes "use:  <ip> [port]") ∷ []) (ended 255)
      else if not socket_ok
      then trace (print (codes "socket") ∷ []) (ended 255)
      else if not connect_ok
      then trace (print (codes "connect") ∷ []) (ended 255)
      else after (print connected ∷ []) (processes fork)
