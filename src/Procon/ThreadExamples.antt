-- ===== src/Procon/ThreadExamples.antt =====
-- The threads, and a user of admin1.c.
use git.Base.{ℕ, ◌≡◌, refl, Bool, false, true, List, [], ◌∷◌, ◌++◌, arith}
use git.Base.Bytes.{atoi, contains, strcmp_eq, strncmp_eq}
use git.Io.{ended, stuck, trace, sent_to}
use git.Relay.Loop.{is_exit, fgets}
use git.Relay.Blocking.{blocking_loop}
use git.Procon.Commands.{
  wfd, Server, no_threads, newline, command1, produce, consume, execute1, list_all, procon1_loop,
}
use git.Procon.Admin.{heard, rounds}
use git.Base.Bytes.{Bytes, codes, no_nul}
use git.Base.Typing.{no_newline, AllLines}
use git.Procon.Answers.{leaves, shown, answers, AllServed}
use git.Procon.Conversation.{Typed, texts, requests, line_size, read_by_admin, bye, conversation}

-- What `rand` gives.
abbrev draws : List ℕ
draws = 41 ∷ 7 ∷ 1007 ∷ 0 ∷ 999 ∷ []

abbrev one_left : Server
one_left = record no_threads { items = 1 }

abbrev no_key : ℕ → Bool
no_key k = false

abbrev says : Bytes → ℕ → Typed
says text tid = record { text = text; tid = tid; stored = true }

abbrev typed : List Typed
typed =
    says (codes "create producer") 71
    ∷ says (codes "create consumer") 72
    ∷ says (codes "delete -1") 0
    ∷ says (codes "hello") 0
    ∷ []

typed-AllLines : AllLines line_size (texts typed)
unfolding no_nul no_newline
typed-AllLines = (
  (refl, refl, omega arith),
  ((refl, refl, omega arith), ((refl, refl, omega arith), ((refl, refl, omega arith), tt))),
)

typed-AllServed : AllServed no_key (requests typed) no_threads
unfolding is_exit strncmp_eq strcmp_eq contains command1 execute1 produce consume
typed-AllServed =
    (refl, omega arith, (refl, (omega arith, omega arith), (refl, tt, (refl, tt, tt))))

conversation_example :
    (blocking_loop (rounds no_key (read_by_admin (typed ++ (bye ∷ []))) no_threads) []
      ≡ trace (shown no_key (requests typed) ++ leaves) (ended 0))
    × (sent_to wfd (procon1_loop no_key (read_by_admin (typed ++ (bye ∷ []))) no_threads).acts
        ≡ answers no_key (requests typed))
    × ((procon1_loop no_key (read_by_admin (typed ++ (bye ∷ []))) no_threads).status ≡ ended 0)
conversation_example = conversation no_key typed no_threads [] typed-AllLines typed-AllServed

minus_one : atoi (codes " -1") ≡ 4294967295
unfolding atoi
minus_one = refl

-- Nothing is written for an empty list, so admin1.c waits for ever, and procon1.c for its next line.
listing_hangs :
    (blocking_loop
      (rounds no_key
        (record { str = newline "list producer"; tid = 0; stored = true } ∷ [])
        no_threads)
      []).status
    ≡ stuck
unfolding blocking_loop rounds heard execute1 command1 strcmp_eq contains list_all sent_to fgets
listing_hangs = refl
