-- ===== src/SlotTable/Stale.antt =====
-- The client thread of socket/more_tcp/s.c. Its buffers are never initialised: what their memory holds
-- in a round is an argument, as are the shared variables that the main thread changes.
use git.Base.{ℕ, Option, none, some, List, [], ◌∷◌, ◌++◌, ◌==◌, if◌then◌else◌, get_elem?}
use git.Base.Bytes.{Bytes, codes, c_str, cut_text, strncmp_eq, decimal}
use git.Io.{Action, print, send, close, Status, running, ended, crashed, Trace, trace, after}
use git.SlotTable.Table.{Table, clear, Received, bytes, failed}

-- One round: `client_p`, `clientfd` and `i` in it; the texts that `buf1` and `buf2` happen to hold,
-- `none` where there is no NUL in them; and what the two `recv`s give.
pub record Round : Type 0 where
  pub table : Table
  pub clientfd : ℕ
  pub i : ℕ
  pub buf1 : Option Bytes
  pub buf2 : Option Bytes
  pub first : Received
  pub second : Received

-- A thread so far: the table that it leaves, what it has done, and whether it goes on.
pub record Thread : Type 0 where
  pub left : Table
  pub trace_of : Trace

abbrev pub thread : Table → List Action → Status → Thread
thread t acts status = record { left = t; trace_of = trace acts status }

abbrev pub doing : List Action → Thread → Thread
doing acts t = record t { trace_of = after acts t.trace_of }

-- `for (j = 0;j < 50;j++)`: each client counts, but each message goes to `client_p[i]`.
unfoldable pub send_each : ℕ → Table → Bytes → List Action
send_each fd [] msg = []
send_each fd (x ∷ t) msg = if x == 0 then send_each fd t msg else send fd msg ∷ send_each fd t msg

-- The second `recv`: less than 0 frees the client's slot and ends the thread.
unfoldable pub hear : ℕ → Received → Table → Thread → Thread
hear index failed t more = thread (clear index t) [] (ended 0)
hear index (bytes b) t more = more

-- The `for` loop with `client_p[i]`, which is out of bounds for 50, and what follows it.
unfoldable pub spread : ℕ → Round → Bytes → Option ℕ → Thread → Thread
spread index r msg none more = thread r.table [] crashed
spread index r msg (some fd) more =
    doing (send_each fd r.table msg) (hear index r.second r.table more)

-- The round from the cut of `buf2` on.
unfoldable pub pass_on : ℕ → Round → Bytes → Thread → Thread
pass_on index r msg more =
    if strncmp_eq 4 (codes "quit") msg
    then thread r.table (close r.clientfd ∷ []) (ended 0)
    else doing (send r.clientfd msg ∷ []) (spread index r msg (get_elem? r.table r.i) more)

-- `buf2[strlen(buf2)-1] = '\0'`
unfoldable pub edit : ℕ → Round → Thread → Thread
edit index r more = elim r.buf2 [
  | none ↦ thread r.table [] crashed
  | some text ↦ elim (cut_text text) [
    | none ↦ thread r.table [] crashed
    | some msg ↦ pass_on index r msg more
  ]
]

abbrev pub heard : ℕ → Bytes → List Action
heard index b = print (codes "from " ++ decimal index ++ (b':' ∷ c_str b)) ∷ []

-- `recv(clientfd,buf1,strlen(buf1),0)` and `buf1[recvbt]='\0'`, which writes before it after a failure.
unfoldable pub listen : ℕ → Round → Thread → Thread
listen index r more = elim r.buf1 [
  | none ↦ thread r.table [] crashed
  | some text ↦ elim r.first [
    | failed ↦ thread r.table [] crashed
    | bytes b ↦
        doing (print (codes "from " ++ decimal index ++ (b':' ∷ c_str b)) ∷ []) (edit index r more)
  ]
]

-- `pthread_run` of s.c for the socket `index`.
unfoldable pub pthread_run : ℕ → List Round → Table → Thread
pthread_run index [] t = thread t [] running
pthread_run index (r ∷ rest) t = listen index r (pthread_run index rest r.table)
