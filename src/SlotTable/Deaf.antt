-- ===== src/SlotTable/Deaf.antt =====
-- What a thread of socket/more_tcp/s.c sends does not depend on what it receives.
use git.Base.{
  ℕ, Bool, Option, none, some, List, [], ◌∷◌, ◌≡◌, refl, true, false, if◌then◌else◌, get_elem?,
}
use mathlib.Core.List.{map}
use git.Base.Bytes.{Bytes, codes, cut_text, strncmp_eq}
use git.Io.{Action, send, crashed, sent_to, sent_to-append}
use git.SlotTable.Table.{Table, Received, bytes, failed}
use git.SlotTable.Stale.{
  Round, Thread, thread, doing, send_each, hear, spread, pass_on, edit, heard, listen, pthread_run,
}

-- The round with other bytes where bytes are received.
abbrev pub say : Bytes → Received → Received
say b failed = failed
say b (bytes c) = bytes b

abbrev saying : Bytes → Round → Round
saying b r = record r { first = say b r.first; second = say b r.second }

-- The messages that a thread sends to one socket.
abbrev pub sends : ℕ → Thread → List Bytes
sends fd t = sent_to fd t.trace_of.acts

-- Two threads that send the same to `fd`, and what keeps them so.
module _ (fd : ℕ) where
  abbrev Same : Thread → Thread → Type 0
  Same u v = sends fd u ≡ sends fd v

  Same-doing : (acts : List Action) (u v : Thread) → Same u v → Same (doing acts u) (doing acts v)
  Same-doing acts u v e =
      rw (sent_to-append fd acts u.trace_of.acts, sent_to-append fd acts v.trace_of.acts, e)

  Same-if : (c : Bool) (t u v : Thread) → Same u v → Same (if c then t else u) (if c then t else v)
  Same-if true t u v e = refl
  Same-if false t u v e = e

  Same-option :
      {A : Type 0} (o : Option A) (t : Thread) (f g : A → Thread)
      → ((a : A) → Same (f a) (g a))
      → Same (elim o [ none ↦ t | some a ↦ f a ]) (elim o [ none ↦ t | some a ↦ g a ])
  Same-option none t f g e = refl
  Same-option (some a) t f g e = e a

  module _ (index : ℕ) (b : Bytes) (r : Round) (u v : Thread) (e : Same u v) where
    Same-hear : (g : Received) → Same (hear index (say b g) r.table u) (hear index g r.table v)
    unfolding hear
    Same-hear failed = refl
    Same-hear (bytes c) = e

    Same-spread :
        (msg : Bytes) (to : Option ℕ)
        → Same (spread index (saying b r) msg to u) (spread index r msg to v)
    unfolding spread
    Same-spread msg none = refl
    Same-spread msg (some to) =
        Same-doing (send_each to r.table msg) (hear index (say b r.second) r.table u)
          (hear index r.second r.table v) (Same-hear r.second)

    Same-pass_on : (msg : Bytes) → Same (pass_on index (saying b r) msg u) (pass_on index r msg v)
    unfolding pass_on
    Same-pass_on msg =
        let to = get_elem? r.table r.i in
        Same-if (strncmp_eq 4 (codes "quit") msg) _ _ _ (
          Same-doing (send r.clientfd msg ∷ []) (spread index (saying b r) msg to u)
            (spread index r msg to v) (Same-spread msg to))

    Same-edit : Same (edit index (saying b r) u) (edit index r v)
    unfolding edit
    Same-edit = Same-option r.buf2 _ _ _ (λ text. Same-option (cut_text text) _ _ _ Same-pass_on)

    Same-received :
        (g : Received)
        → Same
            (elim (say b g) [
              | failed ↦ thread r.table [] crashed
              | bytes c ↦ doing (heard index c) (edit index (saying b r) u)
            ])
            (elim g [
              | failed ↦ thread r.table [] crashed
              | bytes c ↦ doing (heard index c) (edit index r v)
            ])
    unfolding sent_to
    Same-received failed = refl
    Same-received (bytes c) = Same-edit

    Same-listen : Same (listen index (saying b r) u) (listen index r v)
    unfolding listen
    Same-listen = Same-option r.buf1 _ _ _ (λ text. Same-received r.first)

  -- What is received makes no difference to what a thread of s.c sends, to any socket and in any number
  -- of rounds: only what happens to be in its memory does, and whether its second `recv` fails.
  pthread_run-deaf :
      (index : ℕ) (b : Bytes) (rounds : List Round) (t : Table)
      → sends fd (pthread_run index (map (saying b) rounds) t)
        ≡ sends fd (pthread_run index rounds t)
  unfolding pthread_run
  pthread_run-deaf index b [] t = refl
  pthread_run-deaf index b (r ∷ rest) t =
      Same-listen index b r _ _ (pthread_run-deaf index b rest r.table)
