-- ===== src/Procon/Nodes.antt =====
-- The threads do to the list what the command loops count.
use git.Base.{
  ℕ, zero, suc, ◌+◌, ◌-◌, ◌≤◌, ◌<◌, ◌≡◌, refl, sym, ap, ◌∙◌, Bool-cases, inl, inr, drop, take, true,
  false, List, [], ◌∷◌, ◌++◌, ltb, length, length-append, if◌then◌else◌, arith, append_assoc,
}
use mathlib.Core.List.{map, reverse, reverse-append}
use git.Base.Bytes.{Bytes}
use git.Io.{Action, print, running, stuck}
use git.Procon.Commands.{Server, produce, consume}
use git.Procon.Threads.{ran, number, producer, consumer}

-- The numbers of a producer's rounds, the latest first, on top of `head`.
abbrev pushed : List ℕ → List ℕ → List ℕ
pushed [] head = head
pushed (r ∷ rs) head = pushed rs (number r ∷ head)

length-pushed : (rs head : List ℕ) → length (pushed rs head) ≡ length head + length rs
length-pushed [] head = omega arith
length-pushed (r ∷ rs) head = omega (arith, length-pushed rs (number r ∷ head))

module _ (line : ℕ → Bytes) where
  producer-pushed :
      (rs head : List ℕ)
      → ((producer line rs head).head ≡ pushed rs head)
        × ((producer line rs head).printed ≡ map (λ r. print (line (number r))) rs)
        × ((producer line rs head).finished ≡ true)
  unfolding producer
  producer-pushed [] head = (refl, refl, refl)
  producer-pushed (r ∷ rs) head =
      let (h, p, f) = producer-pushed rs (number r ∷ head) in
      (h, ap (λ (ps : List Action). print (line (number r)) ∷ ps) p, f)

  consumer-short :
      (k : ℕ) (head : List ℕ)
      → length head < k
      → ((consumer line k head).head ≡ []) × ((consumer line k head).finished ≡ false)
  unfolding consumer
  consumer-short zero head h = elim h [ ]
  consumer-short (suc k) [] h = (refl, refl)
  consumer-short (suc k) (n ∷ head) h = consumer-short k head (omega (arith, h))

  consumer-takes :
      (k : ℕ) (head : List ℕ)
      → k ≤ length head
      → consumer line k head ≡ ran (drop k head) (map (λ n. print (line n)) (take k head)) true
  unfolding consumer
  consumer-takes zero head h = refl
  consumer-takes (suc k) [] h = elim h [ ]
  consumer-takes (suc k) (n ∷ head) h = rw (consumer-takes k head (omega (arith, h))) refl

  consumer-all :
      (taken head : List ℕ)
      → consumer line (length taken) (taken ++ head)
        ≡ ran head (map (λ n. print (line n)) taken) true
  unfolding consumer
  consumer-all [] head = refl
  consumer-all (n ∷ taken) head = rw (consumer-all taken head) refl

length-drop : (k : ℕ) (head : List ℕ) → length (drop k head) ≡ length head - k
length-drop zero head = omega arith
length-drop (suc k) [] = omega arith
length-drop (suc k) (n ∷ head) = omega (arith, length-drop k head)

-- What a consumer does to the list, and what the command loops count.
consumer-count :
    (line : ℕ → Bytes) (tid : ℕ) (acts : List Action) (s : Server) (head : List ℕ)
    → s.items ≡ length head
    → (length (consumer line 5 head).head ≡ (consume tid acts s).server.items)
      × ((consume tid acts s).status ≡ (if (consumer line 5 head).finished then running else stuck))
unfolding consume
consumer-count line tid acts s head e = elim (Bool-cases (ltb (length head) 5)) [
  | inl short ↦
      let (h, f) = consumer-short line 5 head (ground (arith, short)) in
      rw (e, short, h, f) (refl, refl)
  | inr enough ↦
      let few : 5 ≤ length head = ground (arith, enough) in
      rw (e, enough, consumer-takes line 5 head few) (length-drop 5 head, refl)
]

-- The detailed threads implement what the command loops count, of procon1.c and procon.c alike: if the
-- count is the length of the list, then a producer, which always ends, and a consumer leave a list as
-- long as the loop's count; and the loop goes on after a consumer if the consumer ends, or is stuck.
threads-count :
    (line line' : ℕ → Bytes) (tid : ℕ) (acts : List Action) (s : Server) (rs head : List ℕ)
    → s.items ≡ length head
    → length rs ≡ 5
    → (length (producer line rs head).head ≡ (produce tid acts s).server.items)
      × ((producer line rs head).finished ≡ true)
      × (length (consumer line' 5 head).head ≡ (consume tid acts s).server.items)
      × ((consume tid acts s).status
          ≡ (if (consumer line' 5 head).finished then running else stuck))
unfolding produce
threads-count line line' tid acts s rs head e five =
    let (h, p, f) = producer-pushed line rs head in
    let (l, st) = consumer-count line' tid acts s head e in
    (rw h (omega (arith, length-pushed rs head, e, five)), f, l, st)

pushed-reverse : (rs head : List ℕ) → pushed rs head ≡ reverse (map number rs) ++ head
pushed-reverse [] head = refl
pushed-reverse (r ∷ rs) head =
    pushed-reverse rs (number r ∷ head)
    ∙ sym (append_assoc (reverse (map number rs)) (number r ∷ []) head)
    ∙ ap (λ (l : List ℕ). l ++ head) (sym (reverse-append (number r ∷ []) (map number rs)))

length-taken : (rs : List ℕ) → length rs ≡ length (reverse (map number rs))
length-taken rs = omega (
  arith,
  length-pushed rs [],
  ap (length {A = ℕ}) (pushed-reverse rs []),
  length-append (reverse (map number rs)) [],
)

-- A consumer that runs behind a producer prints the numbers of that producer, the latest first, and
-- leaves the list as the producer has found it.
consumer-producer :
    (line line' : ℕ → Bytes) (rs head : List ℕ)
    → consumer line' (length rs) (producer line rs head).head
      ≡ ran head (map (λ n. print (line' n)) (reverse (map number rs))) true
consumer-producer line line' rs head =
    let (h, p, f) = producer-pushed line rs head in
    rw (h, pushed-reverse rs head, length-taken rs)
      (consumer-all line' (reverse (map number rs)) head)
