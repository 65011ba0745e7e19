-- ===== src/QueueChat/Rounds.antt =====
-- Which messages a receiving process prints, and what it leaves in the queue.
use git.Base.{
  ℕ, zero, suc, ◌≤◌, ◌≡◌, refl, ap, ◌∙◌, Bool, Bool-cases, inl, inr, true, false, none, some, List,
  [], ◌∷◌, ◌++◌, append_assoc, append-nil, ◌==◌, ◌||◌, if◌then◌else◌, arith,
}
use mathlib.Core.List.{map}
use git.Base.Bytes.{Bytes, strcmp_eq}
use git.QueueChat.Programs.{Message, msgrcv, show, take_message, child_loop}

module _ (g : ℕ) where
  abbrev pub in_group : Message → Bool
  in_group m = g == 0 || m.mtype == g

  -- The messages of other groups, those of the group, and how many.
  unfoldable pub outside : List Message → List Message
  outside [] = []
  outside (m ∷ q) = if in_group m then outside q else m ∷ outside q

  unfoldable pub count : List Message → ℕ
  count [] = 0
  count (m ∷ q) = if in_group m then suc (count q) else count q

  abbrev AllOutside : List Message → Type 0
  AllOutside [] = Unit {0}
  AllOutside (m ∷ q) = (in_group m ≡ false) × AllOutside q

  AllOutside-snoc :
      (pre : List Message) (m : Message)
      → AllOutside pre
      → in_group m ≡ false
      → AllOutside (pre ++ (m ∷ []))
  AllOutside-snoc [] m h e = (e, tt)
  AllOutside-snoc (n ∷ pre) m (f, h) e = (f, AllOutside-snoc pre m h e)

  msgrcv-none : (pre : List Message) → AllOutside pre → msgrcv g pre ≡ none
  unfolding msgrcv
  msgrcv-none [] h = refl
  msgrcv-none (m ∷ pre) (e, h) = rw (msgrcv, e, msgrcv-none pre h)

  -- The first message of the group is the one that is received.
  msgrcv-first :
      (pre : List Message) (m : Message) (rest : List Message)
      → AllOutside pre
      → in_group m ≡ true
      → msgrcv g (pre ++ (m ∷ rest)) ≡ some (m, pre ++ rest)
  unfolding msgrcv
  msgrcv-first [] m rest h e = rw (msgrcv, e)
  msgrcv-first (n ∷ pre) m rest (f, h) e = rw (msgrcv, f, msgrcv-first pre m rest h e)

  module _ (name : Bytes) where
    abbrev pub is_own : Message → Bool
    is_own m = strcmp_eq m.name name

    unfoldable pub own : List Message → List Message
    own [] = []
    own (m ∷ q) = if in_group m then (if is_own m then m ∷ own q else own q) else own q

    unfoldable pub others : List Message → List Message
    others [] = []
    others (m ∷ q) = if in_group m then (if is_own m then others q else m ∷ others q) else others q

    abbrev AllOwn : List Message → Type 0
    AllOwn [] = Unit {0}
    AllOwn (m ∷ q) = ((in_group m ≡ true) × (is_own m ≡ true)) × AllOwn q

    AllOwn-snoc :
        (done : List Message) (m : Message)
        → AllOwn done
        → in_group m ≡ true
        → is_own m ≡ true
        → AllOwn (done ++ (m ∷ []))
    AllOwn-snoc [] m h e f = ((e, f), tt)
    AllOwn-snoc (n ∷ done) m (h, hs) e f = (h, AllOwn-snoc done m hs e f)

    module _ (tail : Bytes) where
      -- With nothing but its own messages in the group, the child prints nothing, in any number of rounds.
      child_loop-spins :
          (k : ℕ) (pre done : List Message)
          → AllOutside pre
          → AllOwn done
          → (child_loop k tail g name (pre ++ done)).printed ≡ []
      unfolding child_loop take_message
      child_loop-spins zero pre done h o = refl
      child_loop-spins (suc k) pre [] h o = rw (append-nil, child_loop, msgrcv-none pre h)
      child_loop-spins (suc k) pre (m ∷ done) h ((e, f), o) =
          rw (child_loop, msgrcv-first pre m done h e, f, append_assoc pre done (m ∷ []))
            (child_loop-spins k pre (done ++ (m ∷ [])) h (AllOwn-snoc done m o e f))

      child_loop-others :
          (k : ℕ) (pre q done : List Message)
          → count q ≤ k
          → AllOutside pre
          → AllOwn done
          → (child_loop k tail g name (pre ++ (q ++ done))).printed ≡ map (show tail) (others q)
      unfolding child_loop take_message others count
      child_loop-others k pre [] done enough h o = child_loop-spins k pre done h o
      child_loop-others zero pre (m ∷ q) done enough h o = elim (Bool-cases (in_group m)) [
        | inr e ↦ rw e (
            child_loop-others zero (pre ++ (m ∷ [])) q done (rw e at enough)
              (AllOutside-snoc pre m h e) o)
        | inl e ↦ absurd (omega (arith, (rw e at enough)))
      ]
      child_loop-others (suc k) pre (m ∷ q) done enough h o = elim (Bool-cases (in_group m)) [
        | inr e ↦
            rw (e, ← append_assoc pre (m ∷ []) (q ++ done))
              (child_loop-others (suc k) (pre ++ (m ∷ [])) q done (rw e at enough)
                (AllOutside-snoc pre m h e) o)
        | inl e ↦
            rw (child_loop, e, msgrcv-first pre m (q ++ done) h e)
              (elim (Bool-cases (is_own m)) [
                | inl f ↦
                    rw (f, append_assoc pre (q ++ done) (m ∷ []), append_assoc q done (m ∷ []))
                      (child_loop-others k pre q (done ++ (m ∷ []))
                        (omega (arith, (rw e at enough))) h (AllOwn-snoc done m o e f))
                | inr f ↦ rw f (
                    ap (λ (bs : List Bytes). show tail m ∷ bs)
                      (child_loop-others k pre q done (omega (arith, (rw e at enough))) h o))
              ])
      ]

      -- The queue once each message of the group has been received.
      child_loop-queue :
          (pre q done : List Message)
          → AllOutside pre
          → (child_loop (count q) tail g name (pre ++ (q ++ done))).queue
            ≡ (pre ++ outside q) ++ (done ++ own q)
      unfolding child_loop take_message outside own count
      child_loop-queue pre [] done h = rw (append-nil pre, append-nil)
      child_loop-queue pre (m ∷ q) done h = elim (Bool-cases (in_group m)) [
        | inr e ↦
            rw (e, ← append_assoc pre (m ∷ []) (q ++ done))
              (child_loop-queue (pre ++ (m ∷ [])) q done (AllOutside-snoc pre m h e)
                ∙ ap (λ l. l ++ (done ++ own q)) (append_assoc pre (m ∷ []) (outside q)))
        | inl e ↦
            rw (e, child_loop, msgrcv-first pre m (q ++ done) h e)
              (elim (Bool-cases (is_own m)) [
                | inl f ↦
                    rw (f, append_assoc pre (q ++ done) (m ∷ []), append_assoc q done (m ∷ []))
                      (child_loop-queue pre q (done ++ (m ∷ [])) h
                        ∙ ap (λ l. (pre ++ outside q) ++ l) (append_assoc done (m ∷ []) (own q)))
                | inr f ↦ rw f (child_loop-queue pre q done h)
              ])
      ]

      -- While nobody else uses the queue, the child prints the messages of the others in its group, in
      -- order, within as many rounds as the group has messages, and nothing more in any number of rounds
      -- after them. They are gone for every other member then: the queue holds the messages of the other
      -- groups as before, and behind them its own.
      pub child_loop-receives :
          (k : ℕ) (q : List Message)
          → count q ≤ k
          → ((child_loop k tail g name q).printed ≡ map (show tail) (others q))
            × ((child_loop (count q) tail g name q).queue ≡ outside q ++ own q)
      child_loop-receives k q enough = (
        rw (append-nil q) at (child_loop-others k [] q [] enough tt tt),
        rw (append-nil q) at (child_loop-queue [] q [] tt),
      )
