-- ===== src/QueueChat/Programs.antt =====
-- Both processes of pro2.c. The queue is the list of its messages, the oldest first, as msgsnd and
-- msgrcv are documented. Group numbers are not negative.
use git.Base.{
  ℕ, zero, suc, Bool, true, false, not, Option, none, some, List, [], ◌∷◌, ◌++◌, ◌==◌, ◌||◌,
  if◌then◌else◌, ltb, length, take,
}
use git.Base.Bytes.{Bytes, codes, strcmp_eq}
use git.Io.{Status, running, ended}

-- The part of `struct msg` that a message carries: 100 bytes, the name and 90 bytes of the text.
pub record Message : Type 0 where
  pub mtype : ℕ
  pub name : Bytes
  pub mtext : Bytes

abbrev pub message : ℕ → Bytes → Bytes → Message
message mtype name mtext = record { mtype = mtype; name = name; mtext = mtext }

abbrev pub text_size : ℕ
text_size = 90

-- `msgsnd(msgpid,&msgs,100,0)`: refused with type 0, or if the queue does not take it.
unfoldable pub msgsnd : Bool → ℕ → Bytes → Bytes → Option Message
msgsnd ok mtype name text =
    if mtype == 0 || not ok then none else some (message mtype name (take text_size text))

-- `msgrcv(msgpid,&msgr,sizeof(msgr),mtype,0)`: the oldest message of the type, or of any for type 0,
-- and the queue without it; `none` while it waits.
unfoldable pub msgrcv : ℕ → List Message → Option (Message × List Message)
msgrcv mtype [] = none
msgrcv mtype (m ∷ queue) = elim (mtype == 0 || m.mtype == mtype) [
  | true ↦ some (m, queue)
  | false ↦ elim (msgrcv mtype queue) [ none ↦ none | some (n, rest) ↦ some (n, m ∷ rest) ]
]

-- `printf("From %s: %s",msgr.name,msgr.mtext)`; `tail` is what the last ten bytes of the receiver's
-- buffer hold, which no message fills.
unfoldable pub show : Bytes → Message → Bytes
show tail m =
    codes "From "
    ++ m.name
    ++ codes ": "
    ++ m.mtext
    ++ (if ltb (length m.mtext) text_size then [] else tail)

-- The child: what it has printed, and the queue.
pub record Child : Type 0 where
  pub printed : List Bytes
  pub queue : List Message

-- A round of the child that gets a message: its own goes back, another's is printed.
unfoldable pub take_message : Bytes → Bytes → Message → List Message → Child
take_message tail name m queue =
    if strcmp_eq m.name name
    then record { printed = []; queue = queue ++ (m ∷ []) }
    else record { printed = show tail m ∷ []; queue = queue }

-- At most `k` rounds of the child's loop; it stops early where `msgrcv` waits.
unfoldable pub child_loop : ℕ → Bytes → ℕ → Bytes → List Message → Child
child_loop zero tail mtype name queue = record { printed = []; queue = queue }
child_loop (suc k) tail mtype name queue = elim (msgrcv mtype queue) [
  | none ↦ record { printed = []; queue = queue }
  | some (m, rest) ↦
      let c = take_message tail name m rest in
      let d = child_loop k tail mtype name c.queue in
      record { printed = c.printed ++ d.printed; queue = d.queue }
]

-- A round of the parent: Ctrl-C with the answer to its question, or a call of `fgets` (`none` is NULL),
-- whether the queue takes the message, and the answer if it is asked for.
pub data Round : Type 0 where
  interrupt : ℕ → Round
  typed : Option Bytes → Bool → ℕ → Round

pub record Parent : Type 0 where
  pub sent : List Message
  pub printed : List Bytes
  pub status : Status

abbrev pub printing : List Bytes → Parent → Parent
printing bs p = record p { printed = bs ++ p.printed }

-- `fun_ctrl_c`, and what follows it where it returns.
unfoldable pub fun_ctrl_c : ℕ → Parent → Parent
fun_ctrl_c a more = printing (codes "Are you sure to quit?(y?)" ∷ []) (
    if a == b'y'
    then record {
      sent = [];
      printed = codes "Thank you for using HYL chat room!" ∷ [];
      status = ended 0;
    }
    else printing (codes "Back to HYL chat room." ∷ []) more)

-- What is typed to leave.
abbrev pub leave_word : Bytes
leave_word = codes "886..." ++ (10 ∷ [])

unfoldable pub parent_loop : ℕ → Bytes → List Round → Parent
parent_loop mtype name [] = record { sent = []; printed = []; status = running }
parent_loop mtype name (interrupt a ∷ rest) = fun_ctrl_c a (parent_loop mtype name rest)
parent_loop mtype name (typed none ok a ∷ rest) =
    printing (codes "You cannot sent the empty msg!" ∷ []) (parent_loop mtype name rest)
parent_loop mtype name (typed (some text) ok a ∷ rest) =
    let more = parent_loop mtype name rest in
    let said = printing ((name ++ codes ": " ++ text) ∷ []) more in
    elim (msgsnd ok mtype name text) [
      | none ↦ printing (codes "msg send failed:" ∷ []) more
      | some m ↦
          let p = if strcmp_eq text leave_word then fun_ctrl_c a said else said in
          record p { sent = m ∷ p.sent }
    ]

pub data Fork : Type 0 where
  no_process : Fork
  in_child : ℕ → Bytes → List Message → Fork  -- rounds, the end of its buffer, the queue
  in_parent : List Round → Fork

pub data Outcome : Type 0 where
  exited : ℕ → Outcome
  overrun : Outcome
  receiving : Child → Outcome
  sending : Parent → Outcome

-- `char name[10]`
abbrev pub name_size : ℕ
name_size = 10

-- `main`: whether the key and the queue are made, the number and the name typed, and the `fork`.
unfoldable pub main : Bool → Bool → ℕ → Bytes → Fork → Outcome
main key_ok queue_ok mtype name fork =
    if not key_ok
    then exited 1
    else if not queue_ok
    then exited 1
    else if not (ltb (length name) name_size)
    then overrun
    else elim fork [
      | no_process ↦ exited 1
      | in_child k tail queue ↦ receiving (child_loop k tail mtype name queue)
      | in_parent rounds ↦ sending (parent_loop mtype name rounds)
    ]
