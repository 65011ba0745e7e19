-- ===== src/UdpChat/Server.antt =====
-- The functions of socket/s.c. What the C library decides is a parameter: the address that `malloc`
-- returns (0 is NULL), and whether `sendto` succeeds for a datagram after those sent before.
-- Each loop runs on fuel.
use git.Base.{ℕ, zero, suc, Bool, some, List, [], ◌∷◌, ◌++◌, ◌==◌, if◌then◌else◌, ltb, not}
use git.Base.Bytes.{Bytes, codes, chop}
use git.UdpChat.Heap.{
  SockAddr, memcmp_eq, Msg, Ptr, null, node, Heap, Datagram, Cmd, exited, out_of_fuel, fault, pure,
  ◌>>=◌, ◌>>◌, load, store, set_next, free, ok,
}

pub record Libc : Type 0 where
  pub malloc : Heap → Ptr
  pub accepts : List Datagram → Datagram → Bool

-- What `recvfrom` returns: a datagram and its source, or a failure.
pub data Received : Type 0 where
  datagram : Msg → SockAddr → Received
  failed : Received

pub data Fork : Type 0 where
  no_process child parent : Fork

-- What `main` meets before its loops: its arguments, and the results of the calls.
pub record Setup : Type 0 where
  pub argc : ℕ
  pub server_addr : SockAddr  -- from argv[1] and argv[2]
  pub socket_ok : Bool
  pub bind_ok : Bool
  pub fork : Fork

-- `memset(H, 0, ...)`
abbrev pub zero_addr : SockAddr
zero_addr = record { family = 0; port = 0; addr = 0; pad = 0 }

module _ (libc : Libc) where
  -- `if(sendto(...) < 0) { perror(...); exit(-1); }`
  unfoldable pub send_or_exit : SockAddr → Msg → Cmd (Unit {0})
  send_or_exit to msg w =
      let d : Datagram = record { to = to; msg = msg } in
      if libc.accepts w.sent d then ok tt (record w { sent = w.sent ++ (d ∷ []) }) else exited w

  -- `malloc(sizeof(listnode))`; the block is unusable if it returns NULL.
  unfoldable pub alloc : SockAddr → Ptr → Cmd Ptr
  alloc a n w =
      if libc.malloc w.heap == null
      then fault
      else (store (libc.malloc w.heap) (some (node a n)) >> pure (libc.malloc w.heap)) w

  unfoldable pub linklist_create : Cmd Ptr
  linklist_create = alloc zero_addr null

  -- Until it is set, the `next` of the new node is indeterminate: NULL here.
  unfoldable pub insert_data : Ptr → SockAddr → Cmd (Unit {0})
  insert_data head client = do
    p ← alloc client null
    n ← load head
    set_next p n.next
    set_next head p

  -- `while(h1->next != NULL)`
  unfoldable pub send_loop : ℕ → Ptr → Msg → SockAddr → Cmd (Unit {0})
  send_loop zero h1 msg client = λ _. out_of_fuel
  send_loop (suc k) h1 msg client = do
    n ← load h1
    if n.next == null then pure tt else do
      m ← load n.next
      if memcmp_eq client m.addr then pure tt else send_or_exit m.addr msg
      send_loop k n.next msg client

  unfoldable pub process_login : ℕ → Ptr → Msg → SockAddr → Cmd (Unit {0})
  process_login k head msg client = insert_data head client >> send_loop k head msg client

  unfoldable pub process_broadcast : ℕ → Ptr → Msg → SockAddr → Cmd (Unit {0})
  process_broadcast k head msg client = send_loop k head msg client

  unfoldable pub process_quit : ℕ → Ptr → Msg → SockAddr → Cmd (Unit {0})
  process_quit zero p msg client = λ _. out_of_fuel
  process_quit (suc k) p msg client = do
    n ← load p
    if n.next == null then pure tt else do
      q ← load n.next
      if memcmp_eq client q.addr
          then (do set_next p q.next; free n.next; process_quit k p msg client)
          else (do send_or_exit q.addr msg; process_quit k n.next msg client)

  -- `switch(msg.type)`
  unfoldable pub dispatch : ℕ → Ptr → Msg → SockAddr → Cmd (Unit {0})
  dispatch k head msg client =
      if msg.type == b'L'
      then process_login k head msg client
      else if msg.type == b'B'
      then process_broadcast k head msg client
      else if msg.type == b'Q'
      then process_quit k head msg client
      else pure tt

  -- The parent's loop over what it receives.
  unfoldable pub serve : ℕ → Ptr → List Received → Cmd (Unit {0})
  serve k head [] = pure tt
  serve k head (failed ∷ rest) = exited
  serve k head (datagram msg client ∷ rest) = dispatch k head msg client >> serve k head rest

  -- The child's loop: each line that `fgets` reads, less its newline, goes to the server's own address.
  unfoldable pub announce : SockAddr → List Bytes → Cmd (Unit {0})
  announce server [] = pure tt
  announce server (line ∷ rest) =
      send_or_exit server (record { type = b'B'; name = codes "server"; text = chop line })
      >> announce server rest

  unfoldable pub main_loop : ℕ → Ptr → Setup → List Bytes → List Received → Fork → Cmd (Unit {0})
  main_loop k head setup lines rest no_process = exited
  main_loop k head setup lines rest child = announce setup.server_addr lines
  main_loop k head setup lines rest parent = serve k head rest

  -- The child reads `lines`, the parent receives `rest`.
  unfoldable pub main : ℕ → Setup → List Bytes → List Received → Cmd (Unit {0})
  main k setup lines rest =
      if ltb setup.argc 3
      then exited
      else if not setup.socket_ok
      then exited
      else if not setup.bind_ok
      then exited
      else do head ← linklist_create; main_loop k head setup lines rest setup.fork
