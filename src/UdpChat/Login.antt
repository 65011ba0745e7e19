-- ===== src/UdpChat/Login.antt =====
-- `insert_data` puts a new node behind the head of the list.
use git.Base.{◌≡◌, ◌≢◌, ap, false, none, some, List, ◌∷◌, arith}
use git.UdpChat.Heap.{
  SockAddr, Ptr, null, node, Heap, read, write, read-write, Datagram, world, ok, load, set_next,
  ◌>>=◌, ◌>>◌,
}
use git.UdpChat.Server.{Libc, alloc, insert_data}
use git.UdpChat.Chain.{
  Cells, first, has, has-none, Chain, Chain-write, load-ok, set_next-ok, not-null,
}

-- What `malloc` promises while memory lasts: a block that is not NULL and not in use.
abbrev pub Allocates : Libc → Type 0
Allocates libc = (h : Heap) → (libc.malloc h ≢ null) × (read h (libc.malloc h) ≡ none)

module _ (h : Heap) (fresh : Ptr) (p : Ptr) (a client : SockAddr) (xs : Cells) where
  -- Memory after `p->addr = client_addr; p->next = H->next; H->next = p;`.
  abbrev pub linked : Heap
  linked =
      write (write (write h fresh (some (node client null))) fresh (some (node client (first xs))))
        p (some (node a fresh))

  module _ (ne : fresh ≢ null) (unused : read h fresh ≡ none) (c : Chain h ((p, a) ∷ xs)) where
    fresh-ne : fresh ≢ p
    fresh-ne e = ground (arith, ap (read h) e)

    -- The three memories through which the insertion goes.
    abbrev blank : Heap
    blank = write h fresh (some (node client null))

    abbrev filled : Heap
    filled = write blank fresh (some (node client (first xs)))

    read-blank : read blank p ≡ some (node a (first xs))
    read-blank = rw read-write (ground (arith, fresh-ne, c.1))

    read-fresh : read blank fresh ≡ some (node client null)
    read-fresh = rw read-write (ground arith)

    read-filled : read filled p ≡ some (node a (first xs))
    read-filled = rw (read-write, read-write) (ground (arith, fresh-ne, c.1))

    pub link-ok :
        (log : List Datagram)
        → (do n ← load p; set_next fresh n.next; set_next p fresh) (world blank log)
          ≡ ok tt (world linked log)
    link-ok log = rw (
      load-ok (world blank log) p c.0 read-blank,
      set_next-ok (world blank log) fresh ne read-fresh (first xs),
      set_next-ok (world filled log) p c.0 read-filled fresh,
    )

    fresh-out : has xs fresh ≡ false
    fresh-out = has-none h xs fresh c.3 unused

    Chain-linked_rest : Chain linked xs
    Chain-linked_rest =
        Chain-write _ xs p _
          (Chain-write _ xs fresh _ (Chain-write h xs fresh _ c.3 fresh-out) fresh-out) c.2

    pub Chain-linked : Chain linked ((p, a) ∷ (fresh, client) ∷ xs)
    Chain-linked = (
      c.0,
      rw read-write (ground arith),
      ground (arith, fresh-ne, c.2),
      (ne, rw (read-write, read-write) (ground (arith, fresh-ne)), fresh-out, Chain-linked_rest),
    )

module _ (libc : Libc) (alloc_ok : Allocates libc) where
  pub insert_data-linked :
      (h : Heap) (log : List Datagram) (p : Ptr) (a client : SockAddr) (xs : Cells)
      → Chain h ((p, a) ∷ xs)
      → insert_data libc p client (world h log)
        ≡ ok tt (world (linked h (libc.malloc h) p a client xs) log)
  unfolding insert_data alloc
  insert_data-linked h log p a client xs c = rw (
    not-null (libc.malloc h) (alloc_ok h).0,
    link-ok h (libc.malloc h) p a client xs (alloc_ok h).0 (alloc_ok h).1 c log,
  )
