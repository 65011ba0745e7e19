-- ===== src/FileCopy/Programs.antt =====
-- The three `main`s. A write to the output file is a `send` of one byte. The loops run on fuel.
-- Newlines are left out of the messages. No two of the files are the same.
use git.Base.{
  ℕ, zero, suc, Bool, true, false, not, Option, none, some, [], ◌∷◌, ◌==◌, if◌then◌else◌, ltb,
  length,
}
use git.Base.Bytes.{Bytes, codes}
use git.Io.{print, send, close, running, ended, crashed, Trace, trace, after}

-- A file that is read: the bytes ahead, and the flag that `feof` tests.
pub record Stream : Type 0 where
  pub ahead : Bytes
  pub eof : Bool

abbrev pub stream : Bytes → Bool → Stream
stream ahead eof = record { ahead = ahead; eof = eof }

-- `fgetc`, in a `char` and then as the byte that `fputc` writes: EOF is -1, and becomes 0xff.
unfoldable pub fgetc : Stream → ℕ × Stream
fgetc s = elim s.ahead [ [] ↦ (255, stream [] true) | x ∷ rest ↦ (x, stream rest s.eof) ]

abbrev pub in_fd : ℕ
in_fd = 3

abbrev pub out_fd : ℕ
out_fd = 4

-- `while(!feof(in)) fputc(fgetc(in),out);` and the calls after it.
unfoldable pub copy_loop : ℕ → Stream → Trace
copy_loop zero s = trace [] running
copy_loop (suc k) s =
    let (ch, s') = fgetc s in
    let more = copy_loop k s' in
    if s.eof
    then trace (close in_fd ∷ close out_fd ∷ []) (ended 0)
    else after (send out_fd (ch ∷ []) ∷ []) more

-- Both `fopen`s: what the first file holds, and whether the second opens.
unfoldable pub copy_files : ℕ → Option Bytes → Bool → Trace
copy_files k infile out_ok = elim infile [
  | none ↦ trace (print (codes "cannot open infile") ∷ []) (ended 0)
  | some text ↦
      if out_ok
      then copy_loop k (stream text false)
      else trace (print (codes "cannot open outfile") ∷ []) (ended 0)
]

-- `char infile[10],outfile[10]`
abbrev pub name_size : ℕ
name_size = 10

-- `main` of file2.c. A name of 10 bytes or more overruns its array.
unfoldable pub file2 : ℕ → Bytes → Bytes → Option Bytes → Bool → Trace
file2 k infile outfile text out_ok =
    if not (ltb (length infile) name_size)
    then trace (print (codes "Enter the infile name:") ∷ []) crashed
    else after
        (print (codes "Enter the infile name:") ∷ print (codes "Enter the outfile name:") ∷ [])
        (if ltb (length outfile) name_size then copy_files k text out_ok else trace [] crashed)

-- `main` of file3.c
unfoldable pub file3 : ℕ → ℕ → Option Bytes → Bool → Trace
file3 argc k text out_ok =
    if argc == 3
    then copy_files k text out_ok
    else trace (print (codes "You forgot to enter a filename") ∷ []) (ended 0)

-- `while(ch!='#')` of file1.c, with `ch` in hand; `main` is void, its result is given as 0.
unfoldable pub typed_loop : ℕ → ℕ → Stream → Trace
typed_loop zero ch s = trace [] running
typed_loop (suc k) ch s =
    let (ch', s') = fgetc s in
    let more = typed_loop k ch' s' in
    if ch == b'#'
    then trace (close out_fd ∷ []) (ended 0)
    else after (send out_fd (ch ∷ []) ∷ print (ch ∷ []) ∷ []) more

-- `main` of file1.c: `typed` is what is left of standard input behind the name.
unfoldable pub file1 : ℕ → Bytes → Bool → Bytes → Trace
file1 k filename open_ok typed =
    if not (ltb (length filename) name_size)
    then trace [] crashed
    else if not open_ok
    then trace (print (codes "cannot open file") ∷ []) (ended 0)
    else let (newline, s) = fgetc (stream typed false) in
      let (ch, s') = fgetc s in typed_loop k ch s'
