-- ===== src/Relay/Examples.antt =====
-- The programs at a short conversation.
use git.Base.{◌≡◌, refl, true, none, some, List, [], ◌∷◌}
use git.Base.Bytes.{codes, strncmp_eq}
use git.Io.{ended, sent_to}
use git.Relay.Loop.{
  line, Round, timeout, ready, wfd, Style, is_exit, relay_loop, relay_main, pls, pzs, admin,
  client_123, read_peer, read_line, fgets,
}
use git.Relay.Forwarding.{active, passed_on}
use git.Relay.Programs.{programs-passed_on}

abbrev style : Style
style = record { on_peer = λ b. []; before_line = []; after_line = [] }

abbrev rounds_typed : List Round
rounds_typed =
    timeout
    ∷ ready none (some (line (codes "hi")))
    ∷ ready (some (codes "yo")) none
    ∷ ready none (some (line (codes "exit")))
    ∷ ready none (some (line (codes "late")))
    ∷ []

programs-passed_on_example :
    (sent_to wfd (pls true rounds_typed).acts ≡ passed_on (active rounds_typed))
    × (sent_to wfd (pzs true rounds_typed).acts ≡ passed_on (active rounds_typed))
    × (sent_to wfd (admin true rounds_typed).acts ≡ passed_on (active rounds_typed))
    × (sent_to wfd (client_123 (codes "7") true rounds_typed).acts
        ≡ passed_on (active rounds_typed))
programs-passed_on_example = programs-passed_on rounds_typed (codes "7")

pls_sends : sent_to wfd (pls true rounds_typed).acts ≡ codes "hi" ∷ codes "exit" ∷ []
unfolding pls relay_main relay_loop is_exit strncmp_eq sent_to read_peer read_line fgets
pls_sends = refl

pzs_ends : (pzs true rounds_typed).status ≡ ended 0
unfolding pzs relay_main relay_loop is_exit strncmp_eq read_peer read_line fgets
pzs_ends = refl

admin_sends : sent_to wfd (admin true rounds_typed).acts ≡ codes "hi" ∷ codes "exit" ∷ []
unfolding admin relay_main relay_loop is_exit strncmp_eq sent_to read_peer read_line fgets
admin_sends = refl

client_123_ends : (client_123 (codes "7") true rounds_typed).status ≡ ended 0
unfolding client_123 relay_main relay_loop is_exit strncmp_eq read_peer read_line fgets
client_123_ends = refl
