-- ===== src/Relay/Loop.antt =====
-- The `select` loops. Each round of the loop is an input: what `select` finds ready, and what `read`
-- and `fgets` then give. Texts hold no NUL, and fit into `str[32]`.
use git.Base.{ℕ, Bool, Option, none, some, List, [], ◌∷◌, ◌++◌, if◌then◌else◌}
use git.Base.Bytes.{Bytes, codes, strncmp_eq}
use git.Io.{Action, print, send, close, running, ended, Trace, trace, after}

-- `fgets`: a line, or NULL, which leaves the buffer as it is.
pub data Line : Type 0 where
  line : Bytes → Line
  end_of_file : Line

-- `timeout` is a `select` that returns 0 or less. At the end of the FIFO `read` gives no bytes.
pub data Round : Type 0 where
  timeout : Round
  ready : Option Bytes → Option Line → Round

-- The descriptors.
abbrev pub rfd : ℕ
rfd = 3

abbrev pub wfd : ℕ
wfd = 4

abbrev rule : Action
rule = print (codes "-----------------------------" ++ (10 ∷ []))

-- `printf("<who>:%s\n", str)`
abbrev pub says : Bytes → Bytes → Action
says who str = print (who ++ str ++ (10 ∷ []))

-- What one of the programs prints when the peer is ready, and around reading standard input.
pub record Style : Type 0 where
  pub on_peer : Bytes → List Action
  pub before_line : List Action
  pub after_line : List Action

-- `str` after the branch on the peer, and what is done.
unfoldable pub read_peer : Style → Option Bytes → Bytes → Bytes × List Action
read_peer style none str = (str, [])
read_peer style (some b) str = (b, style.on_peer b)

unfoldable pub fgets : Line → Bytes → Bytes
fgets (line l) str = l
fgets end_of_file str = str

unfoldable pub read_line : Style → Option Line → Bytes → Bytes × List Action
read_line style none str = (str, [])
read_line style (some l) str =
    (fgets l str, style.before_line ++ style.after_line ++ (send wfd (fgets l str) ∷ []))

-- `!strncmp(str, "exit", 4)`
unfoldable pub is_exit : Bytes → Bool
is_exit str = strncmp_eq 4 str (codes "exit")

unfoldable pub relay_loop : Style → List Round → Trace
relay_loop style [] = trace [] running
relay_loop style (timeout ∷ rest) = relay_loop style rest
relay_loop style (ready peer typed ∷ rest) =
    let (heard, did) = read_peer style peer [] in
    let (str, did') = read_line style typed heard in
    let more = relay_loop style rest in
    after (did ++ did') (if is_exit str then trace (close rfd ∷ close wfd ∷ []) (ended 0) else more)

-- `if(rfd<=0||wfd<=0) return 0;` and the greeting, then the loop.
unfoldable pub relay_main : Style → Bytes → Bool → List Round → Trace
relay_main style greeting opened rounds =
    if opened then after (print greeting ∷ []) (relay_loop style rounds) else trace [] (ended 0)

abbrev pub pls_style : Style
pls_style = record {
  on_peer = λ b. rule ∷ says (codes "zs:") b ∷ [];
  before_line = [];
  after_line = rule ∷ [];
}

unfoldable pub pls : Bool → List Round → Trace
pls = relay_main pls_style (codes "this is ls" ++ (10 ∷ []))

abbrev pub pzs_style : Style
pzs_style = record {
  on_peer = λ b. rule ∷ says (codes "ls:") b ∷ [];
  before_line = rule ∷ [];
  after_line = [];
}

unfoldable pub pzs : Bool → List Round → Trace
pzs = relay_main pzs_style (codes "this is zs" ++ (10 ∷ []))

abbrev pub admin_style : Style
admin_style = record {
  on_peer = λ b. says (codes "procon:") b ∷ [];
  before_line = rule ∷ [];
  after_line = [];
}

unfoldable pub admin : Bool → List Round → Trace
admin = relay_main admin_style (codes "this is admin" ++ (10 ∷ []))

-- `pid` is the process's number in decimal.
abbrev pub client_123_style : Bytes → Style
client_123_style pid = record {
  on_peer = λ b. print (10 ∷ codes "receive info:") ∷ says [] b ∷ [];
  before_line = print (codes "client_" ++ pid ++ codes ":") ∷ [];
  after_line = [];
}

unfoldable pub client_123 : Bytes → Bool → List Round → Trace
client_123 pid =
    relay_main (client_123_style pid)
      (codes "this is client_" ++ pid ++ (10 ∷ codes "--------------------------" ++ (10 ∷ [])))
