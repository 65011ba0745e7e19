-- ===== src/FifoPair/Programs.antt =====
-- The writers and the readers. The words that `scanf` reads, what `read` gives and the results of the
-- calls are arguments. Newlines are left out of the messages.
use git.Base.{ℕ, Bool, not, Option, none, some, List, [], ◌∷◌, ◌++◌, if◌then◌else◌, ltb, length}
use git.Base.Bytes.{Bytes, codes, c_str, strncmp_eq}
use git.Io.{print, send, close, running, ended, crashed, Trace, trace, after}

abbrev pub fd : ℕ
fd = 3

-- `char buf[100]`
abbrev pub buf_size : ℕ
buf_size = 100

-- `!strncmp(buf, "bye", 3)`
unfoldable pub is_bye : Bytes → Bool
is_bye buf = strncmp_eq 3 buf (codes "bye")

-- `while(1)` of write.c: each word (none at the end of input: the buffer is all NUL) and whether
-- `write` succeeds. A word of 100 bytes or more overruns the buffer.
unfoldable pub write_loop : List (Bytes × Bool) → Trace
write_loop [] = trace [] running
write_loop ((word, ok) ∷ rest) =
    let more = write_loop rest in
    if not (ltb (length word) buf_size)
    then trace [] crashed
    else if not ok
    then trace (print (codes "write") ∷ []) (ended 1)
    else after (send fd word ∷ []) (if is_bye word then trace [] (ended 0) else more)

unfoldable pub write_main : Bool → List (Bytes × Bool) → Trace
write_main open_ok words =
    if open_ok then write_loop words else trace (print (codes "open") ∷ []) (ended 1)

-- `while(1)` of read.c, whose buffer is cleared before each `read`; `none` is a `read` that fails. A
-- buffer without a NUL is read past its end by `%s`.
unfoldable pub read_loop : List (Option Bytes) → Trace
read_loop [] = trace [] running
read_loop (none ∷ rest) = trace (print (codes "read") ∷ []) (ended 1)
read_loop (some b ∷ rest) =
    let more = read_loop rest in
    if is_bye (c_str b)
    then trace [] (ended 0)
    else if ltb (length (c_str b)) buf_size
    then after (print (codes "read from fifo.tmp: " ++ c_str b) ∷ []) more
    else trace [] crashed

unfoldable pub read_main : Bool → Bool → List (Option Bytes) → Trace
read_main mkfifo_ok open_ok reads =
    if not mkfifo_ok
    then trace (print (codes "fifo") ∷ []) (ended 1)
    else if not open_ok
    then trace (print (codes "read") ∷ []) (ended 1)
    else read_loop reads

-- `write(fd, msg, 10)` of fifo_send.c, whose `msg` is "hello, friend!" and a newline.
abbrev pub hello : Bytes
hello = codes "hello, fri"

-- `main` of fifo_send.c; the result of `write` is not looked at.
unfoldable pub send_main : Bool → Trace
send_main open_ok =
    if not open_ok
    then trace (print (codes "befor fifo open") ∷ print (codes "fifo open failed!") ∷ [])
        (ended 255)
    else trace
        (print (codes "befor fifo open")
          ∷ print (codes "fifo open sucessfully!")
          ∷ print (codes "after fifo open")
          ∷ send fd hello
          ∷ close fd
          ∷ [])
        (ended 0)

-- From `read` on in fifo_receiver.c: at most 100 bytes come, and `none` is a `read` that fails. The
-- NUL is written behind what has come: outside the buffer after 100 bytes, or after a failure.
unfoldable pub receive : Option Bytes → Trace
receive none = trace [] crashed
receive (some b) =
    if not (ltb (length b) buf_size)
    then trace [] crashed
    else trace (print (codes "received message:" ++ c_str b) ∷ close fd ∷ []) (ended 0)

unfoldable pub receive_main : Bool → Option Bytes → Trace
receive_main open_ok got =
    if not open_ok
    then trace (print (codes "befor fifo open") ∷ print (codes "fifo open failed!") ∷ [])
        (ended 255)
    else after
        (print (codes "befor fifo open")
          ∷ print (codes "fifo open sucessfully!")
          ∷ print (codes "after fifo open")
          ∷ [])
        (receive got)
