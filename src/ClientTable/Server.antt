-- ===== src/ClientTable/Server.antt =====
-- The operations of socket/more_tcp/t2s.c on the array `client` and its count `cnt`. The results of
-- `accept`, `recv`, `send` and `pthread_create` are arguments. `none` is an access out of bounds.
use git.Base.{
  ℕ, zero, suc, ◌+◌, ◌-◌, Bool, true, false, Option, none, some, List, [], ◌∷◌, ◌++◌, ◌==◌,
  if◌then◌else◌, get_elem?, set, replicate, length, drop, take,
}
use mathlib.Core.Option
use git.Base.Options.{◌>>=◌}
use git.Base.Bytes.{Bytes, c_str}

-- `#define MAX 100`
abbrev pub max_clients : ℕ
max_clients = 100

-- `struct Client`: `name` is its 40 bytes.
pub record Client : Type 0 where
  pub cfd : ℕ
  pub name : Bytes

-- One `send`: the socket and the text.
abbrev pub Packet : Type 0
Packet = ℕ × Bytes

pub record Server : Type 0 where
  pub client : List Client
  pub cnt : ℕ
  pub sent : List Packet
  pub closed : List ℕ

-- `Client client[MAX] = {}; size_t cnt = 0;`
abbrev pub start : Server
start = record {
  client = replicate max_clients (record { cfd = 0; name = replicate 40 0 });
  cnt = 0;
  sent = [];
  closed = [];
}

-- "您的好友", "上线啦" and "退出了" in UTF-8.
abbrev pub your_friend : Bytes
your_friend = 0xe6 ∷ 0x82 ∷ 0xa8 ∷ 0xe7 ∷ 0x9a ∷ 0x84 ∷ 0xe5 ∷ 0xa5 ∷ 0xbd ∷ 0xe5 ∷ 0x8f ∷ 0x8b ∷ []

abbrev pub is_online : Bytes
is_online = 0xe4 ∷ 0xb8 ∷ 0x8a ∷ 0xe7 ∷ 0xba ∷ 0xbf ∷ 0xe5 ∷ 0x95 ∷ 0xa6 ∷ []

abbrev pub has_left : Bytes
has_left = 0xe9 ∷ 0x80 ∷ 0x80 ∷ 0xe5 ∷ 0x87 ∷ 0xba ∷ 0xe4 ∷ 0xba ∷ 0x86 ∷ []

-- `strcpy(buf, cl.name); strcat(buf, " :"); recv(..., buf + strlen(buf), ...)`
unfoldable pub chat_line : Client → Bytes → Bytes
chat_line cl received = c_str cl.name ++ (b' ' ∷ b':' ∷ received)

-- What `recv` of at most 40 bytes leaves of the bytes that were there. A name of 40 bytes without NUL
-- ends here where its array does; the program reads on.
unfoldable pub overlay : Bytes → Bytes → Bytes
overlay received old = let name = take 40 received in name ++ drop (length name) old

-- `client[i] = client[cnt-1]; --cnt;`
unfoldable pub swap_remove : ℕ → Server → Option Server
swap_remove i s = elim (get_elem? s.client (s.cnt - 1)) [
  | none ↦ none
  | some last ↦ some (record s { client = set s.client i last; cnt = s.cnt - 1 })
]

-- The search of `pthread_run` from index `i`, with `n` rounds left; the flag tells a hit.
unfoldable pub remove_loop : ℕ → ℕ → Client → Server → Option (Bool × Server)
remove_loop zero i cl s = some (false, s)
remove_loop (suc n) i cl s = elim (get_elem? s.client i) [
  | none ↦ none
  | some x ↦
      let rest = remove_loop n (suc i) cl s in
      if x.cfd == cl.cfd then Option.map (λ s'. (true, s')) (swap_remove i s) else rest
]

-- Whether `send` returns more than 0, after the packets sent before.
module _ (accepts : List Packet → Packet → Bool) where
  -- The loop of `broadcast` from index `i`, with `n` rounds left. The lock is held throughout.
  unfoldable pub broadcast_loop : ℕ → ℕ → Bytes → Client → Server → Option Server
  broadcast_loop zero i msg c s = some s
  broadcast_loop (suc n) i msg c s = elim (get_elem? s.client i) [
    | none ↦ none
    | some x ↦
        let next = broadcast_loop n (suc i) msg c in
        if x.cfd == c.cfd
        then next s
        else if accepts s.sent (x.cfd, msg)
        then next (record s { sent = s.sent ++ ((x.cfd, msg) ∷ []) })
        else some s
  ]

  unfoldable pub broadcast : Bytes → Client → Server → Option Server
  broadcast msg c s = broadcast_loop s.cnt 0 msg c s

  -- The branch `ret <= 0` of `pthread_run`, for the client that the thread has copied.
  unfoldable pub leave : Client → Server → Option Server
  leave cl s = do
    (found, s') ← remove_loop s.cnt 0 cl s
    let msg = if found then your_friend ++ (c_str cl.name ++ has_left) else chat_line cl []
    s'' ← broadcast msg cl s'
    some (record s'' { closed = cl.cfd ∷ s''.closed })

  -- The other branch.
  unfoldable pub chat : Client → Bytes → Server → Option Server
  chat cl received s = broadcast (c_str (chat_line cl received)) cl s

  -- One round of `main` after `accept` has returned `cfd`.
  unfoldable pub join : ℕ → Bytes → Server → Option Server
  join cfd received s = elim (get_elem? s.client s.cnt) [
    | none ↦ none
    | some old ↦
        let new : Client = record { cfd = cfd; name = overlay received old.name } in
        Option.map (λ (t : Server). record t { cnt = t.cnt + 1 })
          (broadcast (your_friend ++ (c_str new.name ++ is_online)) new
            (record s { client = set s.client s.cnt new }))
  ]
