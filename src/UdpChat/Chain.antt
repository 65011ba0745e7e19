-- ===== src/UdpChat/Chain.antt =====
-- What the linked list stands for: the addresses of its nodes with the peers that they hold.
use git.Base.{
  ◌≡◌, ◌≢◌, refl, Bool, true, false, none, some, Option, List, [], ◌∷◌, ◌||◌, ◌==◌, arith,
}
use git.UdpChat.Heap.{
  SockAddr, Ptr, null, node, ListNode, Heap, read, write, read-write, World, ok, load, set_next,
  free,
}

abbrev pub Cells : Type 0
Cells = List (Ptr × SockAddr)

abbrev pub first : Cells → Ptr
first [] = null
first ((p, _) ∷ xs) = p

abbrev pub addrs : Cells → List SockAddr
addrs [] = []
addrs ((_, a) ∷ xs) = a ∷ addrs xs

abbrev pub has : Cells → Ptr → Bool
has [] q = false
has ((p, _) ∷ xs) q = q == p || has xs q

-- The nodes of `xs` are distinct, and each points to the one behind it.
abbrev pub Chain : Heap → Cells → Type 0
Chain h [] = Unit {0}
Chain h ((p, a) ∷ xs) =
    (p ≢ null) × (read h p ≡ some (node a (first xs))) × (has xs p ≡ false) × Chain h xs

-- A chain survives every change that spares its nodes.
Chain-frame :
    (h g : Heap) (xs : Cells)
    → Chain h xs
    → ((q : Ptr) → has xs q ≡ true → read g q ≡ read h q)
    → Chain g xs
Chain-frame h g [] c same = tt
Chain-frame h g ((p, a) ∷ xs) c same =
    (c.0, ground (arith, same p), c.2, Chain-frame h g xs c.3 λ q i. same q (ground arith))

pub Chain-write :
    (h : Heap) (xs : Cells) (p : Ptr) (n : Option ListNode)
    → Chain h xs
    → has xs p ≡ false
    → Chain (write h p n) xs
Chain-write h xs p n c out = Chain-frame h _ xs c λ q i. rw read-write (ground arith)

pub has-none : (h : Heap) (xs : Cells) (p : Ptr) → Chain h xs → read h p ≡ none → has xs p ≡ false
has-none h [] p c e = refl
has-none h ((q, a) ∷ xs) p c e = ground (arith, has-none h xs p c.3)

pub not-null : (p : Ptr) → p ≢ null → (p == null) ≡ false
not-null p ne = ground arith

module _ (w : World) (p : Ptr) {n : ListNode} (ne : p ≢ null) (e : read w.heap p ≡ some n) where
  pub load-ok : load p w ≡ ok n w
  unfolding load
  load-ok = ground arith

  pub set_next-ok :
      (q : Ptr)
      → set_next p q w ≡ ok tt (record w { heap = write w.heap p (some (record n { next = q })) })
  unfolding set_next
  set_next-ok q = rw load-ok

  pub free-ok : free p w ≡ ok tt (record w { heap = write w.heap p none })
  unfolding free
  free-ok = rw load-ok
