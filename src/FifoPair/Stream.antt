-- ===== src/FifoPair/Stream.antt =====
-- The reader on the writer's words: each in a read of its own, or all in one.
use git.Base.{
  ℕ, zero, suc, ◌<◌, ◌≡◌, refl, ap, Bool, true, false, some, List, [], ◌∷◌, ◌++◌, ltb, length,
  replicate, arith,
}
use mathlib.Core.List.{map}
use git.Base.Bytes.{Bytes, codes, c_str, no_nul, c_str-whole, strncmp_eq}
use git.Io.{Action, print, running, ended, trace, after, sent_to}
use git.FifoPair.Programs.{fd, buf_size, is_bye, write_loop, write_main, read_loop, read_main}

-- A word that fits its buffer and is not the last.
pub record IsWord (w : Bytes) : Type 0 where
  pub whole : no_nul w ≡ true
  pub fits : length w < buf_size
  pub goes_on : is_bye w ≡ false

abbrev pub AllWords : List Bytes → Type 0
AllWords [] = Unit {0}
AllWords (w ∷ ws) = IsWord w × AllWords ws

-- The words typed, with every `write` successful.
abbrev pub typed : List Bytes → List (Bytes × Bool)
typed [] = []
typed (w ∷ ws) = (w, true) ∷ typed ws

abbrev pub shown : List Bytes → List Action
shown [] = []
shown (w ∷ ws) = print (codes "read from fifo.tmp: " ++ w) ∷ shown ws

module _ (bye : Bytes) (last : is_bye bye ≡ true) (short : length bye < buf_size) where
  write_loop-words :
      (words : List Bytes)
      → AllWords words
      → sent_to fd (write_loop (typed (words ++ (bye ∷ [])))).acts ≡ words ++ (bye ∷ [])
  unfolding write_loop sent_to
  write_loop-words [] h =
      let fits : ltb (length bye) buf_size ≡ true = ground (arith, short) in rw (fits, last)
  write_loop-words (w ∷ ws) (p, h) =
      let fits : ltb (length w) buf_size ≡ true = ground (arith, p.fits) in
      rw (fits, p.goes_on) (ap (λ (l : List Bytes). w ∷ l) (write_loop-words ws h))

  read_loop-words :
      (words : List Bytes)
      → AllWords words
      → no_nul bye ≡ true
      → read_loop (map some (words ++ (bye ∷ []))) ≡ trace (shown words) (ended 0)
  unfolding read_loop
  read_loop-words [] h n = rw (c_str-whole bye n, last)
  read_loop-words (w ∷ ws) (p, h) n =
      let fits : ltb (length w) buf_size ≡ true = ground (arith, p.fits) in
      rw (c_str-whole w p.whole, p.goes_on, fits)
        (ap (after (print (codes "read from fifo.tmp: " ++ w) ∷ [])) (read_loop-words ws h n))

  -- If every call succeeds and each `write` is read by a `read` of its own, the reader prints the words
  -- before the first that begins with "bye", in order, and ends with 0.
  pub words-read :
      (words : List Bytes)
      → AllWords words
      → no_nul bye ≡ true
      → read_main true true
          (map some (sent_to fd (write_main true (typed (words ++ (bye ∷ [])))).acts))
        ≡ trace (shown words) (ended 0)
  unfolding read_main write_main
  words-read words h n = rw (write_loop-words words h) (read_loop-words words h n)

-- At the end of the stream `read` gives nothing.
read_loop-spins : (n : ℕ) → (read_loop (replicate n (some []))).status ≡ running
unfolding read_loop is_bye strncmp_eq c_str
read_loop-spins zero = refl
read_loop-spins (suc n) = read_loop-spins n

-- A last word that arrives in one `read` behind another is missed: the reader then reads the end of the
-- stream for ever.
read_loop-misses :
    (b : Bytes) (n : ℕ)
    → no_nul b ≡ true
    → length b < buf_size
    → is_bye b ≡ false
    → (read_loop (some b ∷ replicate n (some []))).status ≡ running
unfolding read_loop
read_loop-misses b n whole fits goes_on =
    let small : ltb (length b) buf_size ≡ true = ground (arith, fits) in
    rw (c_str-whole b whole, goes_on, small) (read_loop-spins n)
