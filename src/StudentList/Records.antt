-- ===== src/StudentList/Records.antt =====
-- The structs in the file of file_rw1.c.
use git.Base.{
  ℕ, zero, suc, ◌≤◌, ◌≡◌, refl, sym, ap, ◌∙◌, Bool, true, false, some, List, [], ◌∷◌, ◌++◌,
  if◌then◌else◌, length, take, drop, append-nil, arith,
}
use mathlib.Core.List.{map}
use git.Base.Bytes.{Bytes}
use git.Io.{close, sent_to, sent_to-append}
use git.StudentList.Programs.{Student, fd, scan_loop, write_structs, save, main, paired}

-- What is in the file, and the pieces of `n` bytes that it is cut into.
unfoldable pub joined : List Bytes → Bytes
joined [] = []
joined (b ∷ bs) = b ++ joined bs

unfoldable pub pieces : ℕ → ℕ → Bytes → List Bytes
pieces n zero file = []
pieces n (suc k) file = take n file ∷ pieces n k (drop n file)

take-own : (b rest : Bytes) → take (length b) (b ++ rest) ≡ b
take-own [] rest = refl
take-own (x ∷ b) rest = ap (λ l. x ∷ l) (take-own b rest)

drop-own : (b rest : Bytes) → drop (length b) (b ++ rest) ≡ rest
drop-own [] rest = refl
drop-own (x ∷ b) rest = drop-own b rest

unfoldable pub all_ok : List (Student × Bool) → Bool
all_ok [] = true
all_ok ((s, ok) ∷ rest) = if ok then all_ok rest else false

suc-none : {m : ℕ} → 0 ≡ suc m → 1 ≤ 0
suc-none h = omega (arith, h)

module _ (layout : Student → Bytes) (n : ℕ) (sizeof : (s : Student) → length (layout s) ≡ n) where
  write_structs-sent :
      (stud : List (Student × Bool))
      → all_ok stud ≡ true
      → sent_to fd (write_structs layout stud) ≡ map (λ p. layout p.0) stud
  unfolding write_structs sent_to all_ok
  write_structs-sent [] h = refl
  write_structs-sent ((s, true) ∷ rest) h = ap (λ l. layout s ∷ l) (write_structs-sent rest h)
  write_structs-sent ((s, false) ∷ rest) h = cc h

  pieces-joined :
      (stud : List Student) → pieces n (length stud) (joined (map layout stud)) ≡ map layout stud
  unfolding pieces joined
  pieces-joined [] = refl
  pieces-joined (s ∷ stud) =
      rw
        (
          sym (sizeof s),
          take-own (layout s) (joined (map layout stud)),
          drop-own (layout s) (joined (map layout stud)),
          pieces-joined stud,
        )
        refl

  paired-all :
      (stud : List Student) (oks : List Bool)
      → length oks ≡ length stud
      → map (λ p. layout p.0) (paired layout stud oks) ≡ map layout stud
  paired-all [] oks h = refl
  paired-all (s ∷ stud) [] h = elim (suc-none h) [ ]
  paired-all (s ∷ stud) (ok ∷ oks) h =
      ap (λ l. layout s ∷ l) (paired-all stud oks (omega (arith, h)))

  main-fits :
      (typed : List Student) (oks : List Bool)
      → scan_loop typed ≡ some typed
      → (main layout typed true oks).acts
        ≡ write_structs layout (paired layout typed oks) ++ (close fd ∷ [])
  unfolding main save
  main-fits typed oks e = rw (e, main) refl

  file-structs :
      (typed : List Student) (oks : List Bool)
      → scan_loop typed ≡ some typed
      → length oks ≡ length typed
      → all_ok (paired layout typed oks) ≡ true
      → sent_to fd (main layout typed true oks).acts ≡ map layout typed
  unfolding sent_to
  file-structs typed oks e l h =
      ap (sent_to fd) (main-fits typed oks e)
      ∙ sent_to-append fd (write_structs layout (paired layout typed oks)) (close fd ∷ [])
      ∙ append-nil (sent_to fd (write_structs layout (paired layout typed oks)))
      ∙ write_structs-sent (paired layout typed oks) h
      ∙ paired-all typed oks l

  -- When every word fits and every call succeeds, the file is one struct for each student typed, in order.
  file-students :
      (typed : List Student) (oks : List Bool)
      → scan_loop typed ≡ some typed
      → length oks ≡ length typed
      → all_ok (paired layout typed oks) ≡ true
      → pieces n (length typed) (joined (sent_to fd (main layout typed true oks).acts))
        ≡ map layout typed
  file-students typed oks e l h =
      ap (λ f. pieces n (length typed) (joined f)) (file-structs typed oks e l h)
      ∙ pieces-joined typed
