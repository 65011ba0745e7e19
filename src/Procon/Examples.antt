-- ===== src/Procon/Examples.antt =====
-- Short dialogues with both servers.
use git.Base.{ℕ, ◌+◌, ◌≡◌, refl, Bool, true, false, [], ◌∷◌, arith}
use git.Base.Bytes.{codes, strcmp_eq, strncmp_eq, contains, decimal, decimal_digits}
use git.Io.{stuck, sent_to}
use git.Procon.Commands.{
  wfd, no_threads, Request, newline, create_producer, create_consumer, list_producer, command1,
  list_all, produce, execute1, procon1_loop, procon1_main,
}
use git.Procon.Select.{command, System, command0, execute0, procon_loop, procon_main}
use git.Procon.Balance.{Reach, begin, next, create_consumer-hangs, IsBalanced, Reach-IsBalanced}

abbrev key_delete : ℕ → Bool
key_delete k = false

abbrev producer : Request
producer = record { str = newline "create producer"; tid = 71; stored = true }

abbrev consumer : Request
consumer = record { str = newline "create consumer"; tid = 72; stored = false }

abbrev list : Request
list = record { str = newline "list producer"; tid = 0; stored = false }

is_producer : command1 producer.str ≡ create_producer
unfolding command1 strcmp_eq
is_producer = refl

is_consumer : command1 consumer.str ≡ create_consumer
unfolding command1 strcmp_eq
is_consumer = refl

is_list : command1 list.str ≡ list_producer
unfolding command1 strcmp_eq contains
is_list = refl

create_consumer-hangs_example :
    (execute1 key_delete consumer (command1 consumer.str) no_threads).status ≡ stuck
create_consumer-hangs_example =
    create_consumer-hangs key_delete consumer begin (omega arith) is_consumer

one_producer : Reach key_delete (record { items = 5; tid_p = 71 ∷ []; tid_c = [] })
unfolding command1 strcmp_eq execute1 produce
one_producer = next producer begin refl refl

Reach-IsBalanced_example : IsBalanced (record { items = 5; tid_p = 71 ∷ []; tid_c = [] })
Reach-IsBalanced_example = Reach-IsBalanced key_delete one_producer

listed :
    sent_to wfd (procon1_main key_delete true (producer ∷ list ∷ [])).acts
    ≡ codes "71" ∷ codes "71" ∷ []
unfolding procon1_main procon1_loop command1 strcmp_eq contains execute1 produce sent_to list_all
    decimal decimal_digits
listed = refl

abbrev system : System
system = record {
  key_delete = key_delete;
  gettid = λ t. t + 1;
  tid_p_address = 4096;
  tid_c_address = 8192;
}

-- procon.c answers "exit" with "Unknown Command" before it leaves.
exit_reply :
    sent_to wfd
      (procon_main system true
        (command (record { str = newline "exit"; tid = 0; stored = false }) ∷ [])).acts
    ≡ codes "Unknown Command" ∷ []
unfolding procon_main procon_loop command0 strcmp_eq strncmp_eq contains execute0 sent_to
exit_reply = refl
