-- ===== src/QueueChat/Examples.antt =====
-- Two groups on one queue.
use git.Base.{◌≡◌, refl, true, List, [], ◌∷◌, ◌++◌, arith}
use mathlib.Core.List.{map}
use git.Base.Bytes.{Bytes, codes, strcmp_eq, no_nul}
use git.Base.Typing.{with_newline, no_newline}
use git.Io.{ended}
use git.QueueChat.Programs.{
  Message, message, show, child_loop, interrupt, parent_loop, fun_ctrl_c, Parent, Child, main,
  in_parent, in_child, sending, receiving,
}
use git.QueueChat.Rounds.{count, outside, own, others, child_loop-receives}
use git.QueueChat.Delivery.{typing, shown, typed-received}

abbrev queue : List Message
queue =
    message 1 (codes "ann") (codes "hi")
    ∷ message 2 (codes "bob") (codes "yo")
    ∷ message 1 (codes "cat") (codes "so")
    ∷ []

child_loop-receives_example :
    ((child_loop 5 [] 1 (codes "ann") queue).printed ≡ map (show []) (others 1 (codes "ann") queue))
    × ((child_loop (count 1 queue) [] 1 (codes "ann") queue).queue
        ≡ outside 1 queue ++ own 1 (codes "ann") queue)
unfolding count
child_loop-receives_example = child_loop-receives 1 (codes "ann") [] 5 queue (omega arith)

abbrev said : List Bytes
said = codes "hi" ∷ codes "so" ∷ []

typed-received_example :
    (p : Parent) × (c : Child) × (main true true 1 (codes "ann") (in_parent (typing said))
      ≡ sending p)
    × (main true true 1 (codes "cat") (in_child 3 [] p.sent) ≡ receiving c)
    × (c.printed ≡ map (shown (codes "ann")) (map with_newline said))
unfolding strcmp_eq no_nul no_newline
typed-received_example =
    typed-received 1 (codes "ann") (codes "cat") [] 3 said refl (omega arith) (omega arith) refl
      ((refl, refl, omega arith), ((refl, refl, omega arith), tt)) (refl, (refl, tt)) (omega arith)

interrupted : (parent_loop 1 (codes "ann") (interrupt b'y' ∷ [])).status ≡ ended 0
unfolding parent_loop fun_ctrl_c
interrupted = refl
