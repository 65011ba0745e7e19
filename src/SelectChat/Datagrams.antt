-- ===== src/SelectChat/Datagrams.antt =====
-- socket/tcp/95c1.c, the client of the select chat over datagrams. `recvfrom` is asked for as many bytes
-- as the text in `buf` is long, so `buf[recvfrombytes]` is in the buffer unless it fails; what is left
-- of a longer datagram is lost.
use git.Base.{
  ℕ, Bool, true, false, not, Option, none, some, List, [], ◌∷◌, ◌++◌, if◌then◌else◌, length, take,
}
use git.Base.Bytes.{Bytes, codes, c_str}
use git.Io.{print, send, close, running, ended, crashed, Trace, trace, after}
use git.SelectChat.Loop.{
  Received, bytes, finished, failed, Round, timeout, error, ready, Branch, branch, edit, on_typed,
  then_branch, sockfd, client_style,
}

-- `FD_ISSET(sockfd, &rfd_set)`, with the length of the text in `buf`.
unfoldable pub on_datagram : Bytes → Option Received → ℕ → Branch
on_datagram name none len = branch [] running
on_datagram name (some finished) len = branch (close sockfd ∷ []) (ended 0)
on_datagram name (some failed) len = branch [] crashed
on_datagram name (some (bytes b)) len = elim (take len b) [
  | [] ↦ branch (close sockfd ∷ []) (ended 0)
  | x ∷ rest ↦
      branch (print (codes "server: " ++ c_str (x ∷ rest)) ∷ print (name ++ codes ": ") ∷ [])
        running
]

-- The length of the text after it.
unfoldable pub length_after : Option Received → ℕ → ℕ
length_after (some (bytes b)) len = length (c_str (take len b))
length_after _ len = len

unfoldable pub on_efd : Bool → Branch
on_efd false = branch [] running
on_efd true = branch (close sockfd ∷ []) (ended 0)

unfoldable pub datagram_loop : Bytes → List Round → Bytes → ℕ → Trace
datagram_loop name [] str len = trace [] running
datagram_loop name (timeout ∷ rest) str len = datagram_loop name rest str len
datagram_loop name (error ∷ rest) str len = trace (print (codes "select  error:") ∷ []) (ended 1)
datagram_loop name (ready r ∷ rest) str len =
    let more = datagram_loop name rest (edit r.typed str) (length_after r.received len) in
    then_branch (on_typed (client_style name) r.typed str)
      (then_branch (on_datagram name r.received len) (then_branch (on_efd r.exception) more))

-- `main`; `str` and `len` are what the buffers hold before they are written.
unfoldable datagram_main : Bool → Bytes → List Round → Bytes → ℕ → Trace
datagram_main socket_ok name rounds str len =
    if not socket_ok
    then trace (print (codes "socket") ∷ []) (ended 1)
    else after
        (print (codes "enter your name first:")
          ∷ print (name ++ codes ": ")
          ∷ send sockfd name
          ∷ [])
        (datagram_loop name rounds str len)
