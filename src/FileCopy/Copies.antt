-- ===== src/FileCopy/Copies.antt =====
-- What the copies hold.
use git.Base.{
  ℕ, zero, suc, ◌+◌, ◌<◌, ◌≡◌, refl, ap, Bool, true, false, some, List, [], ◌∷◌, ◌++◌, ◌==◌,
  if◌then◌else◌, ltb, length, arith,
}
use git.Base.Bytes.{Bytes, codes}
use git.Io.{Action, print, send, close, running, ended, Trace, trace, after}
use git.FileCopy.Programs.{
  Stream, stream, fgetc, in_fd, out_fd, copy_loop, copy_files, name_size, file2, file3, typed_loop,
  file1,
}

-- Every byte written to the output file.
abbrev pub writes : Bytes → List Action
writes [] = []
writes (x ∷ xs) = send out_fd (x ∷ []) ∷ writes xs

copy_loop-writes :
    (text : Bytes) (k : ℕ)
    → length text + 1 < k
    → copy_loop k (stream text false)
      ≡ trace (writes (text ++ (255 ∷ [])) ++ (close in_fd ∷ close out_fd ∷ [])) (ended 0)
unfolding copy_loop fgetc
copy_loop-writes text zero h = ground arith
copy_loop-writes [] (suc zero) h = ground arith
copy_loop-writes [] (suc (suc k)) h = refl
copy_loop-writes (x ∷ text) (suc k) h =
    ap (after (send out_fd (x ∷ []) ∷ [])) (copy_loop-writes text k (omega arith))

-- Whatever file2.c and file3.c copy, both end, and the copy is the file followed by one more byte, 0xff.
-- The conditions are that the names fit, that both files open, that file3.c has two arguments, and
-- that the fuel is at least two above the length of the file.
pub copies-one_more :
    (infile outfile text : Bytes) (k : ℕ)
    → length infile < name_size
    → length outfile < name_size
    → length text + 1 < k
    → let copy : Trace =
        trace (writes (text ++ (255 ∷ [])) ++ (close in_fd ∷ close out_fd ∷ [])) (ended 0) in
      (file3 3 k (some text) true ≡ copy)
      × (file2 k infile outfile (some text) true
          ≡ after
              (print (codes "Enter the infile name:")
                ∷ print (codes "Enter the outfile name:")
                ∷ [])
              copy)
unfolding file2 file3 copy_files
copies-one_more infile outfile text k h h' enough =
    let small : ltb (length infile) name_size ≡ true = ground (arith, h) in
    let small' : ltb (length outfile) name_size ≡ true = ground (arith, h') in
    (copy_loop-writes text k enough, (rw (small, small', copy_loop-writes text k enough)))

-- No `#` among the bytes.
abbrev no_hash : Bytes → Bool
no_hash [] = true
no_hash (x ∷ xs) = if x == b'#' then false else no_hash xs

-- Each byte as file1.c writes and prints it.
abbrev echoes : Bytes → List Action
echoes [] = []
echoes (x ∷ xs) = send out_fd (x ∷ []) ∷ print (x ∷ []) ∷ echoes xs

-- The loop of file1.c, from the next byte that `getchar` gives.
next_loop : ℕ → Stream → Trace
next_loop k s = let (ch, s') = fgetc s in typed_loop k ch s'

next_loop-hash :
    (text rest : Bytes) (k : ℕ)
    → length text < k
    → no_hash text ≡ true
    → next_loop k (stream (text ++ (b'#' ∷ rest)) false)
      ≡ trace (echoes text ++ (close out_fd ∷ [])) (ended 0)
unfolding next_loop typed_loop fgetc
next_loop-hash text rest zero enough h = ground arith
next_loop-hash [] rest (suc k) enough h = refl
next_loop-hash (x ∷ text) rest (suc k) enough h = ground (arith, next_loop-hash text rest k)

-- With a `#` behind the newline and the bytes of `text`, file1.c writes and prints `text`, each byte
-- once, and ends, if its name fits, its file opens and the fuel is above the length of `text`.
file1-to_hash :
    (filename text rest : Bytes) (newline k : ℕ)
    → length filename < name_size
    → length text < k
    → no_hash text ≡ true
    → file1 k filename true (newline ∷ (text ++ (b'#' ∷ rest)))
      ≡ trace (echoes text ++ (close out_fd ∷ [])) (ended 0)
unfolding file1 fgetc next_loop
file1-to_hash filename text rest newline k h enough clean =
    let small : ltb (length filename) name_size ≡ true = ground (arith, h) in
    rw (small, next_loop-hash text rest k enough clean)

next_loop-runs :
    (text : Bytes) (eof : Bool) (k : ℕ)
    → no_hash text ≡ true
    → (next_loop k (stream text eof)).status ≡ running
unfolding next_loop typed_loop fgetc
next_loop-runs [] eof zero h = refl
next_loop-runs [] eof (suc k) h = next_loop-runs [] true k h
next_loop-runs (x ∷ text) eof zero h = refl
next_loop-runs (x ∷ text) eof (suc k) h = ground (arith, next_loop-runs text eof k)

-- Without a `#` behind its first byte, standard input never ends the loop of file1.c: it runs for
-- every number of rounds, and goes on past the end of the file.
file1-runs :
    (filename typed : Bytes) (newline k : ℕ)
    → length filename < name_size
    → no_hash typed ≡ true
    → (file1 k filename true (newline ∷ typed)).status ≡ running
unfolding file1 fgetc next_loop
file1-runs filename typed newline k h clean =
    let small : ltb (length filename) name_size ≡ true = ground (arith, h) in
    rw (small, next_loop-runs typed false k clean)
