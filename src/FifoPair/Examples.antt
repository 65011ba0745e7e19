-- ===== src/FifoPair/Examples.antt =====
-- Two words and a last one.
use git.Base.{◌≡◌, refl, true, some, [], ◌∷◌, ◌++◌, arith}
use mathlib.Core.List.{map}
use git.Base.Bytes.{Bytes, c_str, codes, no_nul, strncmp_eq}
use git.Io.{print, close, ended, trace, sent_to}
use git.FifoPair.Programs.{fd, is_bye, write_main, read_main, send_main, receive, receive_main}
use git.FifoPair.Stream.{IsWord, typed, shown, words-read}

hi-IsWord : IsWord (codes "hi")
unfolding no_nul is_bye strncmp_eq
hi-IsWord = record { whole = refl; fits = omega arith; goes_on = refl }

words-read_example :
    read_main true true (
      map some (
        sent_to fd
          (write_main true (typed ((codes "hi" ∷ codes "hi" ∷ []) ++ (codes "bye!" ∷ [])))).acts))
    ≡ trace (shown (codes "hi" ∷ codes "hi" ∷ [])) (ended 0)
unfolding no_nul is_bye strncmp_eq
words-read_example =
    words-read (codes "bye!") refl (omega arith) (codes "hi" ∷ codes "hi" ∷ [])
      (hi-IsWord, (hi-IsWord, tt)) refl

-- What fifo_send.c writes is what fifo_receiver.c prints.
hello_received :
    map (λ (b : Bytes). (receive_main true (some b)).acts) (sent_to fd (send_main true).acts)
    ≡ (print (codes "befor fifo open")
        ∷ print (codes "fifo open sucessfully!")
        ∷ print (codes "after fifo open")
        ∷ print (codes "received message:hello, fri")
        ∷ close fd
        ∷ [])
      ∷ []
unfolding receive_main receive send_main sent_to c_str
hello_received = refl
