-- ===== src/Procon/Listing.antt =====
-- What "list producer" prints.
use git.Base.{
  ℕ, suc, ◌+◌, ◌<◌, ◌≡◌, refl, ap, ◌∙◌, Bool, true, List, [], ◌∷◌, ◌++◌, ltb, length, length-append,
  append_assoc, append-nil, arith,
}
use mathlib.Core.List.{map}
use git.Base.Bytes.{Bytes, decimal}
use git.Io.{sent_to}
use git.Procon.Commands.{
  wfd, max_threads, Server, Request, create_producer, list_producer, command1, list_all, identity,
  produce, execute1, procon1_loop,
}

sent_to-list_all : (ts : List ℕ) → sent_to wfd (list_all ts) ≡ map decimal ts
unfolding sent_to list_all
sent_to-list_all [] = refl
sent_to-list_all (t ∷ ts) = ap (λ (l : List Bytes). decimal t ∷ l) (sent_to-list_all ts)

abbrev AllCreate : List Request → Type 0
AllCreate [] = Unit {0}
AllCreate (r ∷ rs) = (command1 r.str ≡ create_producer) × AllCreate rs

abbrev tids : List Request → List ℕ
tids [] = []
tids (r ∷ rs) = r.tid ∷ tids rs

module _ (key_delete : ℕ → Bool) where
  -- After any commands that create producers, "list producer" prints the identity of each thread
  -- that has ended, those that were there first, each in a write of its own.
  list_producer-tids :
      (rs : List Request) (q : Request) (s : Server)
      → AllCreate rs
      → command1 q.str ≡ list_producer
      → length s.tid_p + length rs < suc max_threads
      → sent_to wfd (procon1_loop key_delete (rs ++ (q ∷ [])) s).acts
        ≡ map identity rs ++ map decimal (s.tid_p ++ tids rs)
  unfolding procon1_loop execute1 produce sent_to
  list_producer-tids [] q s all is h = rw is (simp append-nil (sent_to-list_all s.tid_p))
  list_producer-tids (r ∷ rs) q s all is h =
      let place : ltb (length s.tid_p) max_threads ≡ true = ground arith in
      let s' : Server = record s { items = s.items + 5; tid_p = s.tid_p ++ (r.tid ∷ []) } in
      rw (all.0, place)
        (rw (all.0, place)
          (ap (λ (l : List Bytes). identity r ∷ l)
            (list_producer-tids rs q s' all.1 is (omega (arith, length-append s.tid_p (r.tid ∷ [])))
              ∙ ap (λ (l : List ℕ). map identity rs ++ map decimal l)
                  (append_assoc s.tid_p (r.tid ∷ []) (tids rs)))))
