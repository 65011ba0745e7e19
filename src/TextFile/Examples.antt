-- ===== src/TextFile/Examples.antt =====
-- rf.c after wf.c.
use git.Base.{◌≡◌, refl, true, [], ◌∷◌, ◌++◌}
use git.Base.Bytes.{codes}
use git.Io.{print, close, ended, trace}
use git.TextFile.Programs.{
  written, scanned, read_file, is_space, skip_spaces, take_word, fgets, show_lines,
}
use git.Base.Typing.{take_line}

written_read :
    read_file [] (written true)
    ≡ trace
        (print (codes "1: This" ++ (10 ∷ []))
          ∷ print (codes "2:  is testing for fprintf..." ++ (10 ∷ 10 ∷ []))
          ∷ print (codes "3: This is testing for fputs..." ++ (10 ∷ 10 ∷ []))
          ∷ close 3
          ∷ [])
        (ended 0)
unfolding written read_file scanned is_space skip_spaces take_word take_line fgets show_lines
written_read = refl
