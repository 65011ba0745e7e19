-- ===== src/UdpChat/Quit.antt =====
-- `process_quit` unlinks and frees every node of the source, and tells all others.
use git.Base.{
  ℕ, zero, suc, ◌<◌, ◌≡◌, ◌∙◌, refl, true, false, none, some, inl, inr, List, [], ◌∷◌, ◌++◌, ◌==◌,
  if◌then◌else◌, Bool-cases, ==_iff, length, arith,
}
use git.UdpChat.Heap.{
  SockAddr, memcmp_eq, Msg, Ptr, node, Heap, read, write, read-write, Datagram, world, Run, ok,
  exited,
}
use git.UdpChat.Server.{Libc, send_or_exit, process_quit}
use git.UdpChat.Chain.{
  Cells, first, addrs, has, Chain, Chain-write, load-ok, set_next-ok, free-ok, not-null,
}
use git.UdpChat.Broadcast.{others, deliver, Delivery}

-- The nodes that do not hold the address of `client`.
unfoldable pub keep : SockAddr → Cells → Cells
keep client [] = []
keep client ((q, b) ∷ xs) = if memcmp_eq client b then keep client xs else (q, b) ∷ keep client xs

pub addrs-keep :
    (client : SockAddr) (xs : Cells) → addrs (keep client xs) ≡ others client (addrs xs)
unfolding keep others
addrs-keep client [] = refl
addrs-keep client ((q, b) ∷ xs) = ground (arith, addrs-keep client xs)

-- After the loop from the node `p`: what was sent, the nodes kept, the others freed.
pub record Unlinked (client : SockAddr) (h : Heap) (p : Ptr) (a : SockAddr) (xs : Cells) (g : Heap)
    : Type 0 where
  pub chain : Chain g ((p, a) ∷ keep client xs)
  pub same : (q : Ptr) → has ((p, a) ∷ xs) q ≡ false → read g q ≡ read h q
  pub freed : (q : Ptr) → has xs q ≡ true → has (keep client xs) q ≡ false → read g q ≡ none

-- A complete delivery ends with the heap described by `P`, an incomplete one with `exit(-1)`.
pub data Settles (P : Heap → Type 0) (d : Delivery) : Run (Unit {0}) → Type 0 where
  settled : (g : Heap) → d.complete ≡ true → P g → Settles P d (ok tt (world g d.log))
  broken : (g : Heap) → d.complete ≡ false → Settles P d (exited (world g d.log))

Settles-mono :
    {P Q : Heap → Type 0} {d : Delivery} {r : Run (Unit {0})}
    → ((g : Heap) → P g → Q g)
    → Settles P d r
    → Settles Q d r
Settles-mono f (settled g e p) = settled g e (f g p)
Settles-mono f (broken g e) = broken g e

-- `p->next = q->next; free(q);` where `q` is behind `p` and has `xs` behind it.
abbrev bypass : Heap → Ptr → SockAddr → Ptr → Cells → Heap
bypass h p a q xs = write (write h p (some (node a (first xs)))) q none

module _ (client : SockAddr) (h : Heap) (p : Ptr) (a : SockAddr) (q : Ptr) (b : SockAddr)
    (xs : Cells) (c : Chain h ((p, a) ∷ (q, b) ∷ xs)) where
  read-q : read (write h p (some (node a (first xs)))) q ≡ some (node b (first xs))
  read-q = rw read-write (ground arith)

  has-keep : (r : Ptr) (ys : Cells) → has ys r ≡ false → has (keep client ys) r ≡ false
  unfolding keep
  has-keep r [] e = refl
  has-keep r ((s, d) ∷ ys) e = ground (arith, has-keep r ys)

  Chain-bypass : Chain (bypass h p a q xs) ((p, a) ∷ xs)
  Chain-bypass = (
    c.0,
    rw (read-write, read-write) (ground arith),
    ground arith,
    Chain-write _ xs q none (Chain-write h xs p _ c.3.3 (ground arith)) c.3.2,
  )

  read-bypass :
      (r : Ptr)
      → read (bypass h p a q xs) r
        ≡ (if r == q then none else if r == p then some (node a (first xs)) else read h r)
  read-bypass r = rw (read-write, read-write)

  read-bypass-q : read (bypass h p a q xs) q ≡ none
  read-bypass-q = rw read-write (ground arith)

  Unlinked-drop :
      memcmp_eq client b ≡ true
      → (g : Heap) → Unlinked client (bypass h p a q xs) p a xs g
      → Unlinked client h p a ((q, b) ∷ xs) g
  unfolding keep
  Unlinked-drop hit g u = record {
    chain = rw hit u.chain;
    same = λ r o. ground (arith, u.same r, read-bypass r);
    freed = λ r i o. elim (Bool-cases (r == q)) [
      | inl here ↦ rw ((==_iff r q).0 here) (u.same q (ground arith) ∙ read-bypass-q)
      | inr there ↦ u.freed r (rw there at i) (rw hit at o)
    ];
  }

  Unlinked-keep :
      memcmp_eq client b ≡ false
      → (g : Heap) → Unlinked client h q b xs g
      → Unlinked client h p a ((q, b) ∷ xs) g
  unfolding keep
  Unlinked-keep miss g u = record {
    chain = rw miss (c.0, u.same p (ground arith) ∙ c.1, ground (arith, has-keep p xs), u.chain);
    same = λ r o. ground (arith, u.same r);
    freed = λ r i o. ground (arith, u.freed r);
  }

module _ (libc : Libc) (msg : Msg) (client : SockAddr) where
  -- On every chained list, with fuel above the number of peers, `process_quit` sends the message to the
  -- peers other than its source, in order, until `sendto` fails, which exits. If none fails, it ends
  -- with every node of the source out of the chain and freed, and all memory outside of the list as it
  -- was.
  pub process_quit-Unlinked :
      (k : ℕ) (h : Heap) (log : List Datagram) (p : Ptr) (a : SockAddr) (xs : Cells)
      → Chain h ((p, a) ∷ xs)
      → length xs < k
      → Settles
          (Unlinked client h p a xs)
          (deliver libc msg (others client (addrs xs)) log)
          (process_quit libc k p msg client (world h log))
  unfolding process_quit others deliver send_or_exit keep
  process_quit-Unlinked zero h log p a xs c fuel = absurd (omega arith)
  process_quit-Unlinked (suc k) h log p a [] c fuel =
      rw (load-ok (world h log) p c.0 c.1)
        (settled h refl (record { chain = c; same = λ q o. refl; freed = λ q i o. cc }))
  process_quit-Unlinked (suc k) h log p a ((q, b) ∷ xs) c fuel =
      rw (load-ok (world h log) p c.0 c.1, not-null q c.3.0, load-ok (world h log) q c.3.0 c.3.1)
        (elim (Bool-cases (memcmp_eq client b)) [
          | inl same ↦ rw same (
              rw
                (
                  set_next-ok (world h log) p c.0 c.1 (first xs),
                  free-ok (world (write h p (some (node a (first xs)))) log) q c.3.0
                      (read-q client h p a q b xs c),
                )
                (Settles-mono (Unlinked-drop client h p a q b xs c same) (
                  process_quit-Unlinked k (bypass h p a q xs) log p a xs
                    (Chain-bypass client h p a q b xs c) (omega arith))))
          | inr other ↦ rw other (elim (Bool-cases (libc.accepts log (dgram b))) [
            | inl sent ↦ rw sent (
                Settles-mono (Unlinked-keep client h p a q b xs c other)
                  (process_quit-Unlinked k h (log ++ (dgram b ∷ [])) q b xs c.3 (omega arith)))
            | inr refused ↦ rw refused (broken h refl)
          ])
        ])
    where
      dgram : SockAddr → Datagram
      dgram to = record { to = to; msg = msg }
