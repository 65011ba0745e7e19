-- ===== src/StudentList/Examples.antt =====
-- Four students; the third is not written.
use git.Base.{◌≡◌, refl, true, false, [], ◌∷◌, ◌++◌}
use git.Base.Bytes.{Bytes, codes}
use git.Io.{print, send, close, ended, crashed, trace}
use git.StudentList.Programs.{Student, fd, fits_struct, scan_loop, write_structs, save, main}

abbrev layout : Student → Bytes
layout s = s.name ++ (0 ∷ s.num ∷ s.age ∷ []) ++ s.addr

abbrev student : Bytes → Student
student name = record { name = name; num = 1; age = 20; addr = codes "x" }

one_fails :
    main layout
      (student (codes "ann") ∷ student (codes "bob") ∷ student (codes "eve") ∷ [])
      true
      (true ∷ true ∷ false ∷ [])
    ≡ trace
        (send fd (layout (student (codes "ann")))
          ∷ send fd (layout (student (codes "bob")))
          ∷ print (codes "file write error")
          ∷ close fd
          ∷ [])
        (ended 0)
unfolding main scan_loop fits_struct save write_structs
one_fails = refl

long_name : main layout (student (codes "maximilian") ∷ []) true (true ∷ []) ≡ trace [] crashed
unfolding main scan_loop fits_struct
long_name = refl
