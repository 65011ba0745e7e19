-- ===== src/Procon/Balance.antt =====
-- Five nodes for each producer that has ended, less five for each consumer.
use git.Base.{
  if◌then◌else◌, ◌==◌, ℕ, ◌+◌, ◌*◌, ◌<◌, ◌≡◌, refl, sym, Bool, true, [], ◌∷◌, ltb, length,
  length-append, arith,
}
use git.Io.{running, stuck}
use git.Procon.Commands.{
  max_threads, Server, no_threads, Request, Command, create_producer, create_consumer, command1,
  consume, produce, execute1,
}

pub record IsBalanced (s : Server) : Type 0 where
  pub nodes : s.items + 5 * length s.tid_c ≡ 5 * length s.tid_p

module _ (key_delete : ℕ → Bool) where
  -- While the loop goes on, the balance is kept.
  execute1-IsBalanced :
      (r : Request) (c : Command) (s : Server)
      → IsBalanced s
      → (execute1 key_delete r c s).status ≡ running
      → IsBalanced (execute1 key_delete r c s).server
  unfolding execute1 produce consume
  execute1-IsBalanced r create_producer s b e =
      ground (arith, length-append s.tid_p (r.tid ∷ []), b.nodes)
  execute1-IsBalanced r create_consumer s b e =
      ground (arith, length-append s.tid_c (r.tid ∷ []), b.nodes)
  execute1-IsBalanced r _ s b e = b

  -- The servers with which the loop goes on: it stops at "exit", at a consumer that blocks it, and where a
  -- thread's identity is written outside its array.
  pub data Reach : Server → Type 0 where
    begin : Reach no_threads
    next :
        {s t : Server} (r : Request)
        → Reach s
        → (execute1 key_delete r (command1 r.str) s).status ≡ running
        → (execute1 key_delete r (command1 r.str) s).server ≡ t
        → Reach t

  -- In every server with which the loop of procon1.c goes on, the list holds five nodes for each producer
  -- that has ended less five for each such consumer.
  pub Reach-IsBalanced : {s : Server} → Reach s → IsBalanced s
  Reach-IsBalanced begin = record { nodes = refl }
  Reach-IsBalanced (next {s} r p e f) =
      rw (sym f) (execute1-IsBalanced r (command1 r.str) s (Reach-IsBalanced p) e)

  -- In every server that the loop reaches, with room in `tid_c`, "create consumer" blocks for ever if
  -- as many consumers as producers have ended, and goes on to the next command if not.
  pub create_consumer-hangs :
      {s : Server} (r : Request)
      → Reach s
      → length s.tid_c < max_threads
      → command1 r.str ≡ create_consumer
      → (execute1 key_delete r (command1 r.str) s).status
        ≡ (if length s.tid_c == length s.tid_p then stuck else running)
  unfolding execute1 consume
  create_consumer-hangs {s} r p room is =
      let b = Reach-IsBalanced p in
      let place : ltb (length s.tid_c) max_threads ≡ true = ground (arith, room) in
      rw is (rw place (ground (arith, b.nodes)))
