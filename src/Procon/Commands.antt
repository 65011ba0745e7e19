-- ===== src/Procon/Commands.antt =====
-- The command loops. Each command that `read` gives comes with what the system adds to it: the
-- identity of the thread that is started, and whether that thread has stored it before the reply is
-- printed. A thread is joined before the next command, so a producer has put its five nodes in the
-- list, and a consumer has taken five or blocks the loop for ever.
use git.Base.{ℕ, ◌+◌, ◌-◌, Bool, List, [], ◌∷◌, ◌++◌, if◌then◌else◌, ltb, length, drop}
use Prim.Native.String.{String}
use git.Base.Bytes.{Bytes, codes, strcmp_eq, contains, atoi, decimal}
use git.Io.{Action, send, Status, running, ended, stuck, crashed, Trace, trace, after}

abbrev pub wfd : ℕ
wfd = 4

-- `tid_p[1024]`, `tid_c[1024]`
abbrev pub max_threads : ℕ
max_threads = 1024

-- The nodes in the list, and the identities stored by the threads that have ended: the first `P` of
-- `tid_p` and the first `C` of `tid_c`.
pub record Server : Type 0 where
  pub items : ℕ
  pub tid_p : List ℕ
  pub tid_c : List ℕ

abbrev pub no_threads : Server
no_threads = record { items = 0; tid_p = []; tid_c = [] }

abbrev per_thread : ℕ
per_thread = 5

pub record Request : Type 0 where
  pub str : Bytes
  pub tid : ℕ
  pub stored : Bool

abbrev pub newline : String → Bytes
newline s = codes s ++ (10 ∷ [])

pub data Command : Type 0 where
  create_producer create_consumer delete list_producer list_consumer exit unknown : Command

-- The ladder of `strcmp` in procon1.c.
unfoldable pub command1 : Bytes → Command
command1 str =
    if strcmp_eq str (newline "create producer")
    then create_producer
    else if strcmp_eq str (newline "create consumer")
    then create_consumer
    else if contains str (codes "delete")
    then delete
    else if strcmp_eq str (newline "list producer")
    then list_producer
    else if strcmp_eq str (newline "list consumer")
    then list_consumer
    else if strcmp_eq str (newline "exit")
    then exit
    else unknown

abbrev pub reply : Bytes → List Action
reply b = send wfd b ∷ []

-- One write for each identity.
unfoldable pub list_all : List ℕ → List Action
list_all [] = []
list_all (t ∷ ts) = send wfd (decimal t) ∷ list_all ts

-- What a command does: the server after it, what is written, and whether the loop goes on.
pub record Done : Type 0 where
  pub server : Server
  pub acts : List Action
  pub status : Status

abbrev pub done : Server → List Action → Status → Done
done s acts status = record { server = s; acts = acts; status = status }

-- `sprintf(wstr, "%lu", tid_p[P])`, which is 0 until the thread has stored its identity.
abbrev pub identity : Request → Bytes
identity r = decimal (if r.stored then r.tid else 0)

-- A consumer that is joined.
unfoldable pub consume : ℕ → List Action → Server → Done
consume tid acts s =
    if ltb s.items per_thread
    then done (record s { items = 0 }) acts stuck
    else done (record s { items = s.items - per_thread; tid_c = s.tid_c ++ (tid ∷ []) }) acts
        running

unfoldable pub produce : ℕ → List Action → Server → Done
produce tid acts s =
    done (record s { items = s.items + per_thread; tid_p = s.tid_p ++ (tid ∷ []) }) acts running

module _ (key_delete : ℕ → Bool) where
  unfoldable pub execute1 : Request → Command → Server → Done
  execute1 r create_producer s =
      if ltb (length s.tid_p) max_threads
      then produce r.tid (reply (identity r)) s
      else done s [] crashed
  execute1 r create_consumer s =
      if ltb (length s.tid_c) max_threads
      then consume r.tid (reply (identity r)) s
      else done s [] crashed
  execute1 r delete s =
      done s (reply (if key_delete (atoi (drop 6 r.str)) then codes "OK" else codes "failed"))
        running
  execute1 r list_producer s = done s (list_all s.tid_p) running
  execute1 r list_consumer s = done s (list_all s.tid_c) running
  execute1 r exit s = done s [] (ended 0)
  execute1 r unknown s = done s (reply (codes "UNKNOWN COMMAND")) running

  -- What the loop of procon1.c does with what `read` gives.
  unfoldable pub procon1_loop : List Request → Server → Trace
  procon1_loop [] s = trace [] running
  procon1_loop (r ∷ rest) s =
      let d = execute1 r (command1 r.str) s in
      let more = procon1_loop rest d.server in
      after d.acts (elim d.status [ running ↦ more | other ↦ trace [] other ])

  -- `if(rfd<0||wfd<0)return 0;`
  unfoldable pub procon1_main : Bool → List Request → Trace
  procon1_main opened requests =
      if opened then procon1_loop requests no_threads else trace [] (ended 0)
