-- ===== src/Procon/Select.antt =====
-- The loop of tidpid/procon.c. Standard input is in the set of `select` and is never read.

use git.Base.{ℕ, Bool, List, [], ◌∷◌, ◌++◌, if◌then◌else◌, ltb, length}
use git.Base.Bytes.{Bytes, codes, strcmp_eq, strncmp_eq, contains, decimal}
use git.Io.{print, running, ended, crashed, Trace, trace, after}
use git.Procon.Commands.{
  max_threads, Server, no_threads, Request, newline, Command, create_producer, create_consumer,
  delete, list_producer, list_consumer, exit, unknown, reply, Done, done, consume, produce,
}

pub data Round : Type 0 where
  timeout : Round  -- `select` returns 0 or less
  typed : Round  -- standard input alone is ready
  command : Request → Round

-- The ladder of `strcmp` in procon.c; "exit" is tested after it.
unfoldable pub command0 : Bytes → Command
command0 str =
    if strcmp_eq str (newline "create producer")
    then create_producer
    else if strcmp_eq str (newline "create consumer")
    then create_consumer
    else if contains str (codes "delete")
    then delete
    else if strcmp_eq str (newline "list producer")
    then list_producer
    else if strcmp_eq str (newline "list consumer")
    then list_consumer
    else unknown

-- `key_delete` is `pthread_key_delete`, given what `syscall(__NR_gettid)` stored in `tid1`; the lists
-- are printed as the addresses of the arrays.
pub record System : Type 0 where
  pub key_delete : ℕ → Bool
  pub gettid : ℕ → ℕ
  pub tid_p_address : ℕ
  pub tid_c_address : ℕ

module _ (sys : System) where
  unfoldable pub execute0 : Request → Command → Server → ℕ → Done
  execute0 r create_producer s tid1 =
      if ltb (length s.tid_p) max_threads then produce r.tid [] s else done s [] crashed
  execute0 r create_consumer s tid1 =
      if ltb (length s.tid_c) max_threads then consume r.tid [] s else done s [] crashed
  execute0 r delete s tid1 =
      done s
        (print (newline "delete")
          ∷ reply (if sys.key_delete tid1 then codes "OK" else codes "failed"))
        running
  execute0 r list_producer s tid1 = done s (reply (decimal sys.tid_p_address)) running
  execute0 r list_consumer s tid1 = done s (reply (decimal sys.tid_c_address)) running
  execute0 r exit s tid1 = done s [] running
  execute0 r unknown s tid1 = done s (reply (codes "Unknown Command")) running

  -- `tid1` is set by each producer.
  unfoldable pub tid1_after : Request → Command → ℕ → ℕ
  tid1_after r create_producer tid1 = sys.gettid r.tid
  tid1_after r _ tid1 = tid1

  unfoldable pub procon_loop : List Round → Server → ℕ → Trace
  procon_loop [] s tid1 = trace [] running
  procon_loop (timeout ∷ rest) s tid1 = procon_loop rest s tid1
  procon_loop (typed ∷ rest) s tid1 = procon_loop rest s tid1
  procon_loop (command r ∷ rest) s tid1 =
      let c = command0 r.str in
      let d = execute0 r c s tid1 in
      let more = procon_loop rest d.server (tid1_after r c tid1) in
      after
        (print (newline "-----------------------------")
          ∷ print (codes "admin:" ++ (r.str ++ (10 ∷ [])))
          ∷ d.acts)
        (elim d.status [
          | running ↦ if strncmp_eq 4 r.str (codes "exit") then trace [] (ended 1) else more
          | other ↦ trace [] other
        ])

  unfoldable pub procon_main : Bool → List Round → Trace
  procon_main opened rounds =
      if opened
      then after (print (newline "this is procon") ∷ []) (procon_loop rounds no_threads 0)
      else trace [] (ended 0)
