-- ===== src/Relay/Opening.antt =====
-- How two clients of pid/pipemsg/123.c open their FIFOs: each asks whether there is a reader of fifo1, and
-- takes the other side if there is one. An `open` of one end waits until a process has, or waits for,
-- the other end; the one of fifo1 for reading does not wait.
use git.Base.{Bool, true, false, Option, none, some, if◌then◌else◌}

-- Before which `open` a client stands, or how it has opened its two FIFOs.
pub data Place : Type 0 where
  probing : Place  -- fifo1 for writing, without waiting
  reading1 : Place  -- `rfd = open(FIFO1,O_RDONLY|O_NONBLOCK)`
  writing2 : Place  -- `wfd = open(FIFO2,O_WRONLY)`
  writing1 : Place  -- `wfd = open(FIFO1,O_WRONLY)`
  reading2 : Place  -- `rfd = open(FIFO2,O_RDONLY)`
  first : Place  -- reads fifo1 and writes fifo2
  second : Place  -- writes fifo1 and reads fifo2

-- Has fifo1 open for reading; has or wants fifo2 for reading; has or wants fifo2 for writing.
unfoldable pub reads1 : Place → Bool
reads1 probing = false
reads1 reading1 = false
reads1 writing2 = true
reads1 writing1 = false
reads1 reading2 = false
reads1 first = true
reads1 second = false

unfoldable pub reads2 : Place → Bool
reads2 probing = false
reads2 reading1 = false
reads2 writing2 = false
reads2 writing1 = false
reads2 reading2 = true
reads2 first = false
reads2 second = true

unfoldable pub writes2 : Place → Bool
writes2 probing = false
writes2 reading1 = false
writes2 writing2 = true
writes2 writing1 = false
writes2 reading2 = false
writes2 first = true
writes2 second = false

-- The next `open` of a client beside the other; `none` waits, or has opened both.
unfoldable pub open_next : Place → Place → Option Place
open_next probing other = some (if reads1 other then writing1 else reading1)
open_next reading1 other = some writing2
open_next writing2 other = if reads2 other then some first else none
open_next writing1 other = if reads1 other then some reading2 else none
open_next reading2 other = if writes2 other then some second else none
open_next first other = none
open_next second other = none

pub data Client : Type 0 where
  one two : Client

pub record Clients : Type 0 where
  pub at_one : Place
  pub at_two : Place

abbrev pub clients : Place → Place → Clients
clients p q = record { at_one = p; at_two = q }

unfoldable pub opened1 : Clients → Option Place → Option Clients
opened1 s none = none
opened1 s (some p) = some (clients p s.at_two)

unfoldable pub opened2 : Clients → Option Place → Option Clients
opened2 s none = none
opened2 s (some q) = some (clients s.at_one q)

unfoldable pub step : Client → Clients → Option Clients
step one s = opened1 s (open_next s.at_one s.at_two)
step two s = opened2 s (open_next s.at_two s.at_one)

-- Both at their beginning; or the second begins when the first waits for it.
abbrev pub start : Bool → Clients
start true = clients writing2 probing
start false = clients probing probing
