-- ===== src/TextFile/ReadBack.antt =====
-- What rf.c prints of a file of two lines.
use git.Base.{
  ℕ, ◌<◌, ◌≡◌, refl, Bool, true, false, some, [], ◌∷◌, ◌++◌, ltb, length, arith, if◌then◌else◌,
}
use git.Base.Bytes.{Bytes, codes}
use git.Base.Typing.{no_newline, clean, take_line-line}
use git.Io.{print, close, ended, trace}
use git.TextFile.Programs.{
  buff_size, is_space, skip_spaces, take_word, fgets, show_lines, scanned, read_file,
}

-- No byte is a space.
unfoldable no_space : Bytes → Bool
no_space [] = true
no_space (c ∷ b) = if is_space c then false else no_space b

no_space-cons :
    (c : ℕ) (b : Bytes) → no_space (c ∷ b) ≡ true → (is_space c ≡ false) × (no_space b ≡ true)
unfolding no_space
no_space-cons c b h = clean (is_space c) (no_space b) h

skip_spaces-word : (c : ℕ) (b : Bytes) → is_space c ≡ false → skip_spaces (c ∷ b) ≡ c ∷ b
unfolding skip_spaces
skip_spaces-word c b h = rw h refl

is_space-blank : is_space b' ' ≡ true
unfolding is_space
is_space-blank = refl

take_word-word :
    (word : Bytes) (c : ℕ) (rest : Bytes)
    → no_space word ≡ true
    → is_space c ≡ true
    → take_word (word ++ (c ∷ rest)) ≡ (word, c ∷ rest)
unfolding take_word no_space
take_word-word [] c rest h s = rw s refl
take_word-word (x ∷ word) c rest h s =
    let (one, more) = clean (is_space x) (no_space word) h in
    rw (one, take_word-word word c rest more s) refl

fgets-line :
    (buff line rest : Bytes)
    → no_newline line ≡ true
    → length line < 254
    → fgets buff (line ++ (10 ∷ rest)) ≡ (line ++ (10 ∷ []), rest)
unfolding fgets
fgets-line buff [] rest h l = take_line-line 254 [] rest h l
fgets-line buff (c ∷ line) rest h l = take_line-line 254 (c ∷ line) rest h l

show_lines-two :
    (word line line' rest : Bytes)
    → no_newline line ≡ true
    → length line < 254
    → no_newline line' ≡ true
    → length line' < 254
    → show_lines word (line ++ (10 ∷ (line' ++ (10 ∷ rest))))
      ≡ trace
          (print (codes "1: " ++ word ++ (10 ∷ []))
            ∷ print (codes "2: " ++ (line ++ (10 ∷ [])) ++ (10 ∷ []))
            ∷ print (codes "3: " ++ (line' ++ (10 ∷ [])) ++ (10 ∷ []))
            ∷ close 3
            ∷ [])
          (ended 0)
unfolding show_lines
show_lines-two word line line' rest l short l' short' =
    rw
      (
        fgets-line word line (line' ++ (10 ∷ rest)) l short,
        fgets-line (line ++ (10 ∷ [])) line' rest l' short',
      )
      refl

-- A file that begins with a word of at most 254 bytes, the rest of its line and another line, of at most
-- 253 bytes each: rf.c prints the word, the rest of the line and the other line, each with its number,
-- and ends.
read_file-lines :
    (stale : Bytes) (x : ℕ) (word line line' rest : Bytes)
    → no_space (x ∷ word) ≡ true
    → length (x ∷ word) < buff_size
    → no_newline (b' ' ∷ line) ≡ true
    → length (b' ' ∷ line) < 254
    → no_newline line' ≡ true
    → length line' < 254
    → read_file stale (some ((x ∷ word) ++ (b' ' ∷ (line ++ (10 ∷ (line' ++ (10 ∷ rest)))))))
      ≡ trace
          (print (codes "1: " ++ (x ∷ word) ++ (10 ∷ []))
            ∷ print (codes "2: " ++ ((b' ' ∷ line) ++ (10 ∷ [])) ++ (10 ∷ []))
            ∷ print (codes "3: " ++ (line' ++ (10 ∷ [])) ++ (10 ∷ []))
            ∷ close 3
            ∷ [])
          (ended 0)
unfolding read_file scanned
read_file-lines stale x word line line' rest w fits l short l' short' =
    let (one, _) = no_space-cons x word w in
    let more = b' ' ∷ (line ++ (10 ∷ (line' ++ (10 ∷ rest)))) in
    let small : ltb (length (x ∷ word)) buff_size ≡ true = ground (arith, fits) in
    rw
      (
        skip_spaces-word x (word ++ more) one,
        take_word-word (x ∷ word) b' ' (line ++ (10 ∷ (line' ++ (10 ∷ rest)))) w is_space-blank,
        small,
      )
      (show_lines-two (x ∷ word) (b' ' ∷ line) line' rest l short l' short')
