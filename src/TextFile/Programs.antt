-- ===== src/TextFile/Programs.antt =====
-- The writer and the reader of test.txt. A file is its bytes, which hold no NUL.
use git.Base.{
  ℕ, ◌-◌, Bool, ◌||◌, ◌&&◌, Option, none, some, [], ◌∷◌, ◌++◌, ◌==◌, if◌then◌else◌, leb, ltb,
  length,
}
use git.Base.Bytes.{Bytes, codes}
use git.Base.Typing.{take_line}
use git.Io.{print, close, ended, crashed, Trace, trace}

-- `main` of wf.c: what is in the file at its end; a file that does not open is `none`, and the first
-- write to it a crash.
abbrev line1 : Bytes
line1 = codes "This is testing for fprintf..." ++ (10 ∷ [])

abbrev line2 : Bytes
line2 = codes "This is testing for fputs..." ++ (10 ∷ [])

unfoldable pub written : Bool → Option Bytes
written opened = if opened then some (line1 ++ line2) else none

-- `char buff[255]`
abbrev pub buff_size : ℕ
buff_size = 255

-- `isspace`
unfoldable pub is_space : ℕ → Bool
is_space c = (c == 32) || (leb 9 c && leb c 13)

unfoldable pub skip_spaces : Bytes → Bytes
skip_spaces [] = []
skip_spaces (c ∷ file) = let rest = skip_spaces file in if is_space c then rest else c ∷ file

-- The bytes up to the next space, and what is behind them.
unfoldable pub take_word : Bytes → Bytes × Bytes
take_word [] = ([], [])
take_word (c ∷ file) =
    let (word, rest) = take_word file in if is_space c then ([], c ∷ file) else (c ∷ word, rest)

-- `fgets(buff, 255, fp)`: `buff` stays as it is at the end of the file.
unfoldable pub fgets : Bytes → Bytes → Bytes × Bytes
fgets buff [] = (buff, [])
fgets buff (c ∷ file) = take_line (buff_size - 1) (c ∷ file)

-- From the first `printf` of rf.c on.
unfoldable pub show_lines : Bytes → Bytes → Trace
show_lines word rest =
    let (line, rest') = fgets word rest in
    let (line', end) = fgets line rest' in
    trace
      (print (codes "1: " ++ word ++ (10 ∷ []))
        ∷ print (codes "2: " ++ line ++ (10 ∷ []))
        ∷ print (codes "3: " ++ line' ++ (10 ∷ []))
        ∷ close 3
        ∷ [])
      (ended 0)

-- `main` of rf.c from `fscanf` on, by what that gives; a longer word overruns `buff`. `stale` is what
-- `buff` holds if `fscanf` finds no word.
unfoldable pub scanned : Bytes → Bytes × Bytes → Trace
scanned stale ([], rest) = show_lines stale rest
scanned stale (c ∷ word, rest) =
    if ltb (length (c ∷ word)) buff_size then show_lines (c ∷ word) rest else trace [] crashed

-- `main` of rf.c.
unfoldable pub read_file : Bytes → Option Bytes → Trace
read_file stale none = trace [] crashed
read_file stale (some file) = scanned stale (take_word (skip_spaces file))
