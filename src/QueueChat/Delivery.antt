-- ===== src/QueueChat/Delivery.antt =====
-- From what is typed in one process of a group to what another prints.
use git.Base.{
  ℕ, zero, suc, ◌≤◌, ◌<◌, ◌≡◌, refl, ap, ◌∙◌, true, false, some, List, [], ◌∷◌, ◌++◌, append-nil,
  ◌==◌, ltb, length, length-append, take, arith,
}
use git.Base.Typing.{reads, with_newline, input_of, AllLines, reads-lines}
use mathlib.Core.List.{map}
use git.Base.Bytes.{Bytes, codes, strcmp_eq}
use git.QueueChat.Programs.{
  Message, message, text_size, msgsnd, show, child_loop, leave_word, Round, typed, parent_loop,
  name_size, main, in_parent, in_child, sending, receiving, Parent, Child,
}
use git.QueueChat.Rounds.{count, others, child_loop-receives}

-- A line that a message carries whole, and that does not ask to leave.
abbrev AllShort : List Bytes → Type 0
AllShort [] = Unit {0}
AllShort (l ∷ ls) = ((length l < text_size) × (strcmp_eq l leave_word ≡ false)) × AllShort ls

-- `fgets(msgs.mtext,100,stdin)` reads at most 99 bytes.
abbrev pub line_size : ℕ
line_size = 99

-- Each text read and taken by the queue.
abbrev rounds : List Bytes → List Round
rounds [] = []
rounds (l ∷ ls) = typed (some l) true 0 ∷ rounds ls

abbrev pub shown : Bytes → Bytes → Bytes
shown name l = codes "From " ++ name ++ codes ": " ++ l

-- The rounds of a parent whose user types the lines.
abbrev pub typing : List Bytes → List Round
typing lines = rounds (reads (length lines) line_size (input_of lines))

-- None of them is "886...".
abbrev pub AllStay : List Bytes → Type 0
AllStay [] = Unit {0}
AllStay (l ∷ ls) = (strcmp_eq (with_newline l) leave_word ≡ false) × AllStay ls

AllLines-longer : (lines : List Bytes) → AllLines 89 lines → AllLines line_size lines
AllLines-longer [] h = tt
AllLines-longer (l ∷ ls) ((n, w, s), h) = ((n, w, omega (arith, s)), AllLines-longer ls h)

AllLines-AllShort :
    (lines : List Bytes) → AllLines 89 lines → AllStay lines → AllShort (map with_newline lines)
AllLines-AllShort [] h t = tt
AllLines-AllShort (l ∷ ls) ((_, _, s), h) (t, ts) =
    ((omega (arith, s, length-append l (10 ∷ [])), t), AllLines-AllShort ls h ts)

length-map : (lines : List Bytes) → length (map with_newline lines) ≡ length lines
length-map [] = refl
length-map (l ∷ ls) = ap suc (length-map ls)

take-all : (n : ℕ) (l : Bytes) → length l ≤ n → take n l ≡ l
take-all zero [] h = refl
take-all zero (x ∷ l) h = absurd (omega (arith, h))
take-all (suc n) [] h = refl
take-all (suc n) (x ∷ l) h = ap (λ (r : Bytes). x ∷ r) (take-all n l (omega (arith, h)))

module _ (g : ℕ) (name : Bytes) (group : (g == 0) ≡ false) where
  parent_loop-sends :
      (lines : List Bytes)
      → AllShort lines
      → (parent_loop g name (rounds lines)).sent ≡ map (message g name) lines
  unfolding parent_loop msgsnd
  parent_loop-sends [] h = refl
  parent_loop-sends (l ∷ ls) ((short, stays), h) =
      rw (parent_loop, group, stays, take-all text_size l (omega (arith, short)))
        (ap (λ (ms : List Message). message g name l ∷ ms) (parent_loop-sends ls h))

  count-all : (lines : List Bytes) → count g (map (message g name) lines) ≡ length lines
  unfolding count
  count-all [] = refl
  count-all (l ∷ ls) = ground (arith, count-all ls)

  others-all :
      (reader : Bytes) (tail : Bytes) (lines : List Bytes)
      → strcmp_eq name reader ≡ false
      → AllShort lines
      → map (show tail) (others g reader (map (message g name) lines)) ≡ map (shown name) lines
  unfolding others show
  others-all reader tail [] other h = refl
  others-all reader tail (l ∷ ls) other ((short, stays), h) =
      let fits : ltb (length l) text_size ≡ true = ground (arith, short) in
      let same : (g == g) ≡ true = ground arith in
      rw (group, same, other, fits, append-nil)
        (ap (λ (bs : List Bytes). shown name l ∷ bs) (others-all reader tail ls other h))

  texts-received :
      (reader tail : Bytes) (k : ℕ) (texts : List Bytes)
      → strcmp_eq name reader ≡ false
      → AllShort texts
      → length texts ≤ k
      → (child_loop k tail g reader (parent_loop g name (rounds texts)).sent).printed
        ≡ map (shown name) texts
  texts-received reader tail k texts other h enough = rw (parent_loop-sends texts h) (
      (child_loop-receives g reader tail k (map (message g name) texts)
        (omega (arith, count-all texts))).0
      ∙ others-all reader tail texts other h)

  main-parent :
      (rs : List Round)
      → length name < name_size
      → main true true g name (in_parent rs) ≡ sending (parent_loop g name rs)
  unfolding main
  main-parent rs short =
      let fits : ltb (length name) name_size ≡ true = ground (arith, short) in rw fits refl

main-child :
    (g : ℕ) (reader : Bytes) (k : ℕ) (tail : Bytes) (queue : List Message)
    → length reader < name_size
    → main true true g reader (in_child k tail queue) ≡ receiving (child_loop k tail g reader queue)
unfolding main
main-child g reader k tail queue short =
    let fits : ltb (length reader) name_size ≡ true = ground (arith, short) in rw fits refl

pub typed-received :
    (g : ℕ) (name reader tail : Bytes) (k : ℕ) (lines : List Bytes)
    → (g == 0) ≡ false
    → length name < name_size
    → length reader < name_size
    → strcmp_eq name reader ≡ false
    → AllLines 89 lines
    → AllStay lines
    → length lines ≤ k
    → (p : Parent) × (c : Child) × (main true true g name (in_parent (typing lines)) ≡ sending p)
      × (main true true g reader (in_child k tail p.sent) ≡ receiving c)
      × (c.printed ≡ map (shown name) (map with_newline lines))
typed-received g name reader tail k lines group short short' other h stay enough =
    let p = parent_loop g name (typing lines) in
    let whole = reads-lines line_size lines (AllLines-longer lines h) in
    (
      p,
      child_loop k tail g reader p.sent,
      main-parent g name group (typing lines) short,
      main-child g reader k tail p.sent short',
      rw whole (
          texts-received g name group reader tail k (map with_newline lines) other
            (AllLines-AllShort lines h stay) (omega (arith, enough, length-map lines))),
    )
