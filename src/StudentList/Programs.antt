-- ===== src/StudentList/Programs.antt =====
-- `main` and `save`. How the compiler lays a struct out is an argument. `scanf` gives a word for a string
-- and a number for an int.
use git.Base.{ℕ, Bool, ◌&&◌, Option, none, some, List, [], ◌∷◌, ◌++◌, if◌then◌else◌, ltb, length}
use mathlib.Core.Option
use git.Base.Bytes.{Bytes, codes}
use git.Io.{print, send, close, ended, crashed, Action, Trace, trace}

-- `#define SIZE 4`
abbrev pub size : ℕ
size = 4

abbrev pub name_size : ℕ
name_size = 10

abbrev pub addr_size : ℕ
addr_size = 15

pub record Student : Type 0 where
  pub name : Bytes
  pub num : ℕ
  pub age : ℕ
  pub addr : Bytes

abbrev pub fd : ℕ
fd = 3

-- The words and numbers fit their arrays, with the NUL behind a word.
unfoldable pub fits_struct : Student → Bool
fits_struct s = ltb (length s.name) name_size && ltb (length s.addr) addr_size

-- `for(i=0;i<SIZE;i++) scanf(...)`; `none` is an array overrun.
unfoldable pub scan_loop : List Student → Option (List Student)
scan_loop [] = some []
scan_loop (s ∷ typed) =
    let rest = scan_loop typed in if fits_struct s then Option.map (λ stud. s ∷ stud) rest else none

module _ (layout : Student → Bytes) where
  -- `for(i=0; i<SIZE; i++) if(fwrite(...)!=1) printf(...)`, with what `fwrite` returns for each; an
  -- `fwrite` that fails is taken to write nothing.
  unfoldable pub write_structs : List (Student × Bool) → List Action
  write_structs [] = []
  write_structs ((s, ok) ∷ rest) =
      let more = write_structs rest in
      if ok then send fd (layout s) ∷ more else print (codes "file write error") ∷ more

  unfoldable pub save : Bool → List (Student × Bool) → List Action
  save opened stud =
      if opened
      then write_structs stud ++ (close fd ∷ [])
      else print (codes "cannot open file") ∷ []

  -- The students and the results of `fwrite`, paired.
  abbrev pub paired : List Student → List Bool → List (Student × Bool)
  paired [] oks = []
  paired (s ∷ stud) [] = []
  paired (s ∷ stud) (ok ∷ oks) = (s, ok) ∷ paired stud oks

  unfoldable pub main : List Student → Bool → List Bool → Trace
  main typed opened oks = elim (scan_loop typed) [
    | none ↦ trace [] crashed
    | some stud ↦ trace (save opened (paired stud oks)) (ended 0)
  ]
