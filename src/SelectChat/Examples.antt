-- ===== src/SelectChat/Examples.antt =====
-- The loops at short conversations.
use git.Base.{◌≡◌, refl, true, false, none, some, List, [], ◌∷◌, ◌++◌}
use git.Base.Bytes.{Bytes, codes, chop, strncmp_eq, c_str}
use git.Io.{ended, closed, print, sent_to}
use git.SelectChat.Loop.{
  line, bytes, Ready, Round, timeout, ready, server_style, client_style, on_typed, on_received,
  on_exception, then_branch, fgets, edit, chat_loop, client_main, server_main, first_name, sockfd,
}
use git.SelectChat.Closing.{
  cause, typed_cause, received_cause, exception_cause, farewell, Closes, chat_loop-Closes,
}
use git.SelectChat.Datagrams.{datagram_loop, on_datagram, on_efd, length_after}

abbrev says : Bytes → Ready
says b = record { typed = some (line b); received = none; exception = false }

abbrev rounds_typed : List Round
rounds_typed =
    timeout ∷ ready (says (codes "hi" ++ (10 ∷ []))) ∷ ready (says (codes "quit" ++ (10 ∷ []))) ∷ []

chat_loop-Closes_example :
    Closes
      (4 ∷ 3 ∷ [])
      (4 ∷ [])
      (cause rounds_typed [])
      (chat_loop (server_style []) rounds_typed []).status
      (closed (chat_loop (server_style []) rounds_typed []).acts)
    × Closes
        (3 ∷ [])
        (3 ∷ [])
        (cause rounds_typed [])
        (chat_loop (client_style []) rounds_typed []).status
        (closed (chat_loop (client_style []) rounds_typed []).acts)
chat_loop-Closes_example = chat_loop-Closes [] rounds_typed

says_farewell : cause rounds_typed [] ≡ farewell
unfolding cause typed_cause received_cause exception_cause fgets edit chop strncmp_eq
says_farewell = refl

client_sends :
    sent_to sockfd (client_main true true (codes "li") rounds_typed).acts
    ≡ codes "li" ∷ codes "hi" ∷ []
unfolding client_main chat_loop then_branch on_typed on_received on_exception fgets edit chop
    strncmp_eq sent_to
client_sends = refl

server_ends :
    (server_main
      (record {
        socket_ok = true;
        bind_ok = true;
        listen_ok = true;
        accept_ok = true;
        name = bytes (codes "li");
        file_ok = true;
      })
      rounds_typed).status
    ≡ ended 0
unfolding server_main first_name c_str chat_loop then_branch on_typed on_received on_exception fgets
    edit chop strncmp_eq
server_ends = refl

-- A datagram is cut to the length of the text before it.
datagram_cut :
    (datagram_loop []
      (ready (record { typed = none; received = some (bytes (codes "hello")); exception = false })
        ∷ ready (record { typed = none; received = some (bytes (codes "dear")); exception = false })
        ∷ [])
      []
      3).acts
    ≡ print (codes "server: hel")
      ∷ print (codes ": ")
      ∷ print (codes "server: dea")
      ∷ print (codes ": ")
      ∷ []
unfolding datagram_loop on_typed on_datagram on_efd length_after edit then_branch c_str
datagram_cut = refl
