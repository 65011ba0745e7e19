-- ===== src/UdpChat/Broadcast.antt =====
-- A datagram goes to each peer but its source, in the order of the list, up to the first failure.
use git.Base.{
  ℕ, zero, suc, ◌<◌, ◌≡◌, Bool, true, false, inl, inr, List, [], ◌∷◌, ◌++◌, if◌then◌else◌,
  Bool-cases, length, arith,
}
use git.UdpChat.Heap.{SockAddr, memcmp_eq, Msg, Ptr, Heap, Datagram, world, Run, ok, exited}
use git.UdpChat.Server.{Libc, send_or_exit, send_loop}
use git.UdpChat.Chain.{Cells, addrs, Chain, load-ok, not-null}

-- The peers whose address differs from `client`.
unfoldable pub others : SockAddr → List SockAddr → List SockAddr
others client [] = []
others client (a ∷ as_) = if memcmp_eq client a then others client as_ else a ∷ others client as_

-- The log of what is sent, and whether all was sent.
pub record Delivery : Type 0 where
  pub complete : Bool
  pub log : List Datagram

module _ (libc : Libc) (msg : Msg) where
  -- One datagram to each peer in turn; the first refusal ends it.
  unfoldable pub deliver : List SockAddr → List Datagram → Delivery
  deliver [] log = record { complete = true; log = log }
  deliver (a ∷ rest) log =
      let d : Datagram = record { to = a; msg = msg } in
      let more = deliver rest (log ++ (d ∷ [])) in
      if libc.accepts log d then more else record { complete = false; log = log }

abbrev pub settle : Delivery → Heap → Run (Unit {0})
settle d h = if d.complete then ok tt (world h d.log) else exited (world h d.log)

module _ (libc : Libc) (msg : Msg) (client : SockAddr) where
  pub send_loop-deliver :
      (k : ℕ) (h : Heap) (log : List Datagram) (p : Ptr) (a : SockAddr) (xs : Cells)
      → Chain h ((p, a) ∷ xs)
      → length xs < k
      → send_loop libc k p msg client (world h log)
        ≡ settle (deliver libc msg (others client (addrs xs)) log) h
  unfolding send_loop others deliver send_or_exit
  send_loop-deliver zero h log p a xs c fuel = absurd (omega arith)
  send_loop-deliver (suc k) h log p a [] c fuel = rw (load-ok (world h log) p c.0 c.1)
  send_loop-deliver (suc k) h log p a ((q, b) ∷ xs) c fuel =
      rw (load-ok (world h log) p c.0 c.1, not-null q c.3.0, load-ok (world h log) q c.3.0 c.3.1)
        (elim (Bool-cases (memcmp_eq client b)) [
          | inl same ↦ rw same (send_loop-deliver k h log q b xs c.3 (omega arith))
          | inr other ↦ rw other (elim (Bool-cases (libc.accepts log (dgram b))) [
            | inl sent ↦
                rw sent (send_loop-deliver k h (log ++ (dgram b ∷ [])) q b xs c.3 (omega arith))
            | inr refused ↦ rw refused
          ])
        ])
    where
      dgram : SockAddr → Datagram
      dgram to = record { to = to; msg = msg }
