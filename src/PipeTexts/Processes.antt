-- ===== src/PipeTexts/Processes.antt =====
-- ParentPlace and child behind `fork`, one call at a time. What each prints is a list of its own, the latest
-- line first. Neither `write` can fail or wait while the pipe has a reader, since a pipe holds more than
-- both texts; without a reader it is the end of the parent, by SIGPIPE.
use git.Base.{
  ℕ, Bool, true, false, Option, none, some, List, [], ◌∷◌, ◌++◌, if◌then◌else◌, length, not, take,
  drop,
}
use git.Base.Bytes.{Bytes}
use git.Steps.{Reach}

-- The ten bytes that are written of each text, in UTF-8: three characters, and a byte of the fourth.
abbrev pub text1 : Bytes
text1 = 231 ∷ 172 ∷ 172 ∷ 228 ∷ 184 ∷ 128 ∷ 228 ∷ 184 ∷ 178 ∷ 230 ∷ []

abbrev pub text2 : Bytes
text2 = 231 ∷ 172 ∷ 172 ∷ 228 ∷ 186 ∷ 140 ∷ 228 ∷ 184 ∷ 178 ∷ 230 ∷ []

pub data Line : Type 0 where
  wrote1 wrote2 : Line
  has_read : ℕ → Bytes → Line  -- the number of bytes and the bytes

pub data ParentPlace : Type 0 where
  writing1 : ParentPlace  -- close(pipe_fd[0]), write of the first text
  writing2 : ParentPlace
  closing : ParentPlace  -- close(pipe_fd[1])
  waiting : ParentPlace  -- waitpid
  parent_exit : ParentPlace
  killed : ParentPlace  -- by SIGPIPE

pub data ChildPlace : Type 0 where
  reading : ChildPlace  -- close(pipe_fd[1]), read
  closing_read : ChildPlace  -- close(pipe_fd[0])
  child_exit : ChildPlace

pub record State : Type 0 where
  pub parent_at : ParentPlace
  pub child_at : ChildPlace
  pub pipe : Bytes
  pub said : List Line
  pub told : List Line

-- The pipe has a reader, and a writer beside the child.
unfoldable pub has_reader : ChildPlace → Bool
has_reader reading = true
has_reader closing_read = true
has_reader child_exit = false

unfoldable pub has_writer : ParentPlace → Bool
has_writer writing1 = true
has_writer writing2 = true
has_writer closing = true
has_writer waiting = false
has_writer parent_exit = false
has_writer killed = false

-- `write` of a text with the line printed behind it, after which the parent is at `p`.
unfoldable pub put_text : Bytes → Line → ParentPlace → State → State
put_text text line p s =
    if has_reader s.child_at
    then record s { parent_at = p; pipe = s.pipe ++ text; said = line ∷ s.said }
    else record s { parent_at = killed }

unfoldable pub parent_step : State → ParentPlace → Option State
parent_step s writing1 = some (put_text text1 wrote1 writing2 s)
parent_step s writing2 = some (put_text text2 wrote2 closing s)
parent_step s closing = some (record s { parent_at = waiting })
parent_step s waiting =
    if has_reader s.child_at then none else some (record s { parent_at = parent_exit })
parent_step s parent_exit = none
parent_step s killed = none

-- `char buf_r[100]`
abbrev pub buf_size : ℕ
buf_size = 100

-- `read`, and the line printed; on an empty pipe it waits for a writer, if there is one.
unfoldable pub read_pipe : State → Bytes → Option State
read_pipe s [] =
    if has_writer s.parent_at then none else some (record s { child_at = closing_read })
read_pipe s (c ∷ b) = some (record s {
  child_at = closing_read;
  pipe = drop buf_size (c ∷ b);
  told = has_read (length (take buf_size (c ∷ b))) (take buf_size (c ∷ b)) ∷ s.told;
})

unfoldable pub child_step : State → ChildPlace → Option State
child_step s reading = read_pipe s s.pipe
child_step s closing_read = some (record s { child_at = child_exit })
child_step s child_exit = none

pub data Process : Type 0 where
  father son : Process

unfoldable pub step : Process → State → Option State
step father s = parent_step s s.parent_at
step son s = child_step s s.child_at

-- Behind `fork`.
abbrev pub forked : State
forked = record { parent_at = writing1; child_at = reading; pipe = []; said = []; told = [] }

-- `main` up to there: it may end, with an exit code. `exit;` calls nothing.
pub data Begun : Type 0 where
  over : ℕ → Begun
  begun : State → Begun

unfoldable pub main : Bool → Bool → Begun
main pipe_ok fork_ok =
    if not pipe_ok then over 255 else if not fork_ok then over 0 else begun forked

abbrev pub Reached : State → Type 0
Reached = Reach step forked
