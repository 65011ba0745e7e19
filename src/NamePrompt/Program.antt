-- ===== src/NamePrompt/Program.antt =====
-- `main`. What `select` gives is an argument: `none` if nothing is typed in time, or else the word that
-- `scanf` reads, none at the end of input (`stale` is what `buf` held).
use git.Base.{ℕ, ◌≡◌, refl, Option, none, some, [], ◌∷◌, ◌++◌, if◌then◌else◌, ltb, length}
use git.Base.Bytes.{Bytes, codes}
use git.Io.{print, ended, crashed, Trace, trace, after}

-- `char buf[32]`
abbrev pub buf_size : ℕ
buf_size = 32

-- A longer word overruns `buf`.
unfoldable pub say_name : Bytes → Option Bytes → Trace
say_name stale none = trace (print (codes "your name is " ++ stale) ∷ []) (ended 0)
say_name stale (some word) =
    if ltb (length word) buf_size
    then trace (print (codes "your name is " ++ word) ∷ []) (ended 0)
    else trace [] crashed

unfoldable pub answered : Bytes → Option (Option Bytes) → Trace
answered stale none = trace (print (codes "input timeout") ∷ []) (ended 0)
answered stale (some typed) = say_name stale typed

unfoldable pub main : Bytes → Option (Option Bytes) → Trace
main stale ready = after (print (codes "what's your name?") ∷ []) (answered stale ready)

-- In time and late.
ann_answers :
    (main [] (some (some (codes "ann")))
      ≡ trace (print (codes "what's your name?") ∷ print (codes "your name is ann") ∷ []) (ended 0))
    × (main [] none
        ≡ trace (print (codes "what's your name?") ∷ print (codes "input timeout") ∷ []) (ended 0))
unfolding main answered say_name
ann_answers = (refl, refl)
