-- ===== src/Base/Typing.antt =====
-- What `fgets` reads of an input, such as what a user types.
use Prim.Native.Nat.{ℕ, zero, suc, ◌<◌}
use mathlib.Core.Path.{◌≡◌, refl, sym, ap, ◌∙◌}
use mathlib.Core.Bool.{Bool, true, false}
use mathlib.Core.List.{List, [], ◌∷◌, ◌++◌, map}
use native.Mathlib.Omega.{arith}
use git.Base.Lists.{length}
use git.Base.Tests.{◌==◌, if◌then◌else◌}
use git.Base.Bytes.{Bytes, no_nul}

-- `fgets` of at most `n` bytes, up to the end of the line with its newline; nothing at the end.
unfoldable pub take_line : ℕ → Bytes → Bytes × Bytes
take_line zero file = ([], file)
take_line (suc n) [] = ([], [])
take_line (suc n) (c ∷ file) =
    let (line, rest) = take_line n file in if c == 10 then (c ∷ [], file) else (c ∷ line, rest)

-- What `k` calls of `fgets` give, while the input lasts.
unfoldable pub reads : ℕ → ℕ → Bytes → List Bytes
reads zero n input = []
reads (suc k) n [] = []
reads (suc k) n (c ∷ input) = let (line, rest) = take_line n (c ∷ input) in line ∷ reads k n rest

-- No byte is a newline.
unfoldable pub no_newline : Bytes → Bool
no_newline [] = true
no_newline (c ∷ b) = if c == 10 then false else no_newline b

abbrev pub with_newline : Bytes → Bytes
with_newline l = l ++ (10 ∷ [])

-- Lines, each with its newline, one after the other.
unfoldable pub input_of : List Bytes → Bytes
input_of [] = []
input_of (l ∷ ls) = l ++ (10 ∷ input_of ls)

-- A line without NUL that `fgets` of at most `n` bytes reads whole.
abbrev pub IsLine : ℕ → Bytes → Type 0
IsLine n l = (no_nul l ≡ true) × (no_newline l ≡ true) × (length l < n)

abbrev pub AllLines : ℕ → List Bytes → Type 0
AllLines n [] = Unit {0}
AllLines n (l ∷ ls) = IsLine n l × AllLines n ls

pub clean : (t u : Bool) → (if t then false else u) ≡ true → (t ≡ false) × (u ≡ true)
clean true u h = (sym h, cc h)
clean false u h = (refl, h)

pub take_line-line :
    (n : ℕ) (line rest : Bytes)
    → no_newline line ≡ true
    → length line < n
    → take_line n (line ++ (10 ∷ rest)) ≡ (with_newline line, rest)
unfolding take_line no_newline
take_line-line zero line rest h l = elim l [ ]
take_line-line (suc n) [] rest h l = refl
take_line-line (suc n) (c ∷ line) rest h l =
    let (one, more) = clean (c == 10) (no_newline line) h in
    rw (one, take_line-line n line rest more (omega (arith, l))) refl

reads-one :
    (k n : ℕ) (line rest : Bytes)
    → IsLine n line
    → reads (suc k) n (line ++ (10 ∷ rest)) ≡ with_newline line ∷ reads k n rest
unfolding reads
reads-one k n [] rest (_, whole, short) = rw (take_line-line n [] rest whole short) refl
reads-one k n (c ∷ line) rest (_, whole, short) =
    rw (take_line-line n (c ∷ line) rest whole short) refl

-- Lines that fit are read one by one.
pub reads-lines :
    (n : ℕ) (lines : List Bytes)
    → AllLines n lines
    → reads (length lines) n (input_of lines) ≡ map with_newline lines
unfolding reads input_of
reads-lines n [] h = refl
reads-lines n (l ∷ ls) (one, more) =
    reads-one (length ls) n l (input_of ls) one
    ∙ ap (λ (bs : List Bytes). with_newline l ∷ bs) (reads-lines n ls more)
