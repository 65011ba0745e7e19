-- ===== src/FileCopy/Examples.antt =====
-- Runs of the copies.
use git.Base.{◌≡◌, true, some, [], ◌∷◌, ◌++◌, arith}
use git.Base.Bytes.{codes}
use git.Io.{print, close, ended, trace, after}
use git.FileCopy.Programs.{in_fd, out_fd, file2, file3}
use git.FileCopy.Copies.{writes, copies-one_more}

copies-one_more_example :
    (file3 3 5 (some (codes "abc")) true
      ≡ trace (writes (codes "abc" ++ (255 ∷ [])) ++ (close in_fd ∷ close out_fd ∷ [])) (ended 0))
    × (file2 5 (codes "in.txt") (codes "out.txt") (some (codes "abc")) true
        ≡ after
            (print (codes "Enter the infile name:") ∷ print (codes "Enter the outfile name:") ∷ [])
            (trace
              (writes (codes "abc" ++ (255 ∷ [])) ++ (close in_fd ∷ close out_fd ∷ []))
              (ended 0)))
copies-one_more_example =
    copies-one_more (codes "in.txt") (codes "out.txt") (codes "abc") 5 (omega arith) (omega arith)
      (omega arith)
