-- ===== src/Procon/Conversation.antt =====
-- A user of tidpid/admin1.c, and procon1.c behind it.
use git.Base.{ℕ, suc, ◌≡◌, refl, ap, ◌∙◌, Bool, false, List, [], ◌∷◌, ◌++◌, length, arith}
use mathlib.Core.List.{map}
use git.Base.Bytes.{Bytes, codes, no_nul}
use git.Base.Typing.{reads, no_newline, with_newline, input_of, AllLines, reads-lines}
use git.Io.{ended, trace, sent_to}
use git.Relay.Blocking.{blocking_loop}
use git.Procon.Commands.{wfd, Server, Request, procon1_loop}
use git.Procon.Admin.{rounds}
use git.Procon.Answers.{goodbye, leaves, AllServed, answers, shown, user-rounds, server-rounds}

-- A line that is typed, and what the system adds to it in procon1.c.
pub record Typed : Type 0 where
  pub text : Bytes
  pub tid : ℕ
  pub stored : Bool

abbrev pub request_of : Bytes → Typed → Request
request_of str t = record { str = str; tid = t.tid; stored = t.stored }

abbrev pub texts : List Typed → List Bytes
texts = map (λ t. t.text)

abbrev pub requests : List Typed → List Request
requests = map (λ t. request_of (with_newline t.text) t)

-- `fgets(s,sizeof(s),stdin)` reads at most 31 bytes.
abbrev pub line_size : ℕ
line_size = 31

-- What admin1.c reads, and passes on.
abbrev pub passed_on : List Bytes → List Typed → List Request
passed_on [] ts = []
passed_on (b ∷ bs) [] = []
passed_on (b ∷ bs) (t ∷ ts) = request_of b t ∷ passed_on bs ts

unfoldable pub read_by_admin : List Typed → List Request
read_by_admin ts = passed_on (reads (length ts) line_size (input_of (texts ts))) ts

passed_on-whole : (ts : List Typed) → passed_on (map with_newline (texts ts)) ts ≡ requests ts
passed_on-whole [] = refl
passed_on-whole (t ∷ ts) =
    ap (λ (rs : List Request). request_of (with_newline t.text) t ∷ rs) (passed_on-whole ts)

length-texts : (ts : List Typed) → length ts ≡ length (texts ts)
length-texts [] = refl
length-texts (t ∷ ts) = ap suc (length-texts ts)

read_by_admin-requests :
    (ts : List Typed) → AllLines line_size (texts ts) → read_by_admin ts ≡ requests ts
unfolding read_by_admin
read_by_admin-requests ts h =
    ap (λ n. passed_on (reads n line_size (input_of (texts ts))) ts) (length-texts ts)
    ∙ ap (λ bs. passed_on bs ts) (reads-lines line_size (texts ts) h)
    ∙ passed_on-whole ts

-- The line "exit".
abbrev pub bye : Typed
bye = record { text = codes "exit"; tid = 0; stored = false }

with_bye-lines :
    (ts : List Typed)
    → AllLines line_size (texts ts)
    → AllLines line_size (texts (ts ++ (bye ∷ [])))
unfolding no_nul no_newline
with_bye-lines [] h = ((refl, refl, omega arith), tt)
with_bye-lines (t ∷ ts) h = (h.0, with_bye-lines ts h.1)

with_bye-requests : (ts : List Typed) → requests (ts ++ (bye ∷ [])) ≡ requests ts ++ (goodbye ∷ [])
with_bye-requests [] = refl
with_bye-requests (t ∷ ts) =
    ap (λ (rs : List Request). request_of (with_newline t.text) t ∷ rs) (with_bye-requests ts)

with_bye-read :
    (ts : List Typed)
    → AllLines line_size (texts ts)
    → read_by_admin (ts ++ (bye ∷ [])) ≡ requests ts ++ (goodbye ∷ [])
with_bye-read ts h =
    read_by_admin-requests (ts ++ (bye ∷ [])) (with_bye-lines ts h) ∙ with_bye-requests ts

module _ (key_delete : ℕ → Bool) where
  -- If each line typed to admin1.c, of at most 30 bytes and without NUL, is a command that procon1.c answers
  -- once, with room for the thread that it starts and five numbers for a consumer, and does not begin with
  -- "exit", and the last line is "exit", then admin1.c prints under each the answer to it and ends with
  -- both FIFOs closed, and procon1.c writes just those answers and ends.
  pub conversation :
      (ts : List Typed) (s : Server) (buf : Bytes)
      → AllLines line_size (texts ts)
      → AllServed key_delete (requests ts) s
      → (blocking_loop (rounds key_delete (read_by_admin (ts ++ (bye ∷ []))) s) buf
          ≡ trace (shown key_delete (requests ts) ++ leaves) (ended 0))
        × (sent_to wfd (procon1_loop key_delete (read_by_admin (ts ++ (bye ∷ []))) s).acts
            ≡ answers key_delete (requests ts))
        × ((procon1_loop key_delete (read_by_admin (ts ++ (bye ∷ []))) s).status ≡ ended 0)
  conversation ts s buf short h =
      let (sent, ends) = server-rounds key_delete (requests ts) s h in
      rw (with_bye-read ts short) (user-rounds key_delete (requests ts) s buf h, sent, ends)
