-- ===== src/ClientTable/Broadcast.antt =====
-- `broadcast` sends the message to the live clients in order, its source left out, up to the first
-- that does not take it.
use git.Base.{
  get_elem?-some, ℕ, zero, suc, ◌+◌, ◌≤◌, ◌≡◌, refl, Bool, some, List, [], ◌∷◌, ◌++◌, ◌==◌,
  if◌then◌else◌, take, drop, length, arith,
}
use git.Base.Bytes.{Bytes}
use git.ClientTable.Server.{Client, Packet, Server, broadcast_loop, broadcast}
use git.ClientTable.Array.{live, take-drop_get}

module _ (accepts : List Packet → Packet → Bool) (msg : Bytes) (c : Client) where
  unfoldable pub relay : List Client → List Packet → List Packet
  relay [] log = log
  relay (x ∷ xs) log =
      let next = relay xs in
      if x.cfd == c.cfd
      then next log
      else if accepts log (x.cfd, msg)
      then next (log ++ ((x.cfd, msg) ∷ []))
      else log

  broadcast_loop-relay :
      (n i : ℕ) (s : Server)
      → n + i ≤ length s.client
      → broadcast_loop accepts n i msg c s
        ≡ some (record s { sent = relay (take n (drop i s.client)) s.sent })
  unfolding broadcast_loop relay
  broadcast_loop-relay zero i s h = refl
  broadcast_loop-relay (suc n) i s h =
      let (x, e) = get_elem?-some s.client i (omega arith) in
      ground (
        arith,
        e,
        take-drop_get s.client n i e,
        broadcast_loop-relay n (suc i) s,
        broadcast_loop-relay n (suc i) (record s { sent = s.sent ++ ((x.cfd, msg) ∷ []) }),
      )

  -- If `cnt` is within the array, `broadcast` adds to the log of packets what `relay` sends to the live
  -- clients, in order, the source left out, up to the first refusal; it changes nothing else.
  pub broadcast-relay :
      (s : Server)
      → s.cnt ≤ length s.client
      → broadcast accepts msg c s ≡ some (record s { sent = relay (live s) s.sent })
  unfolding broadcast
  broadcast-relay s h = broadcast_loop-relay s.cnt 0 s (omega arith)
