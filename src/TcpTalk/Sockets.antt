-- ===== src/TcpTalk/Sockets.antt =====
-- Which socket the threads of s1.c read.
use git.Base.{
  ℕ, zero, suc, ◌≡◌, refl, sym, ap, ◌∙◌, Option, none, some, List, [], ◌∷◌, ◌++◌, append_assoc,
  append-nil, length, length-append, replicate, arith,
}
use mathlib.Core.List.{map}
use git.TcpTalk.Accepts.{Event, accepts, starts, clients, start_at, run}

-- Each thread reads its argument before the next `accept`; or all of them after the last.
abbrev pub prompt : ℕ → List ℕ → List Event
prompt k [] = []
prompt k (fd ∷ fds) = accepts fd ∷ starts k ∷ prompt (suc k) fds

abbrev pub starts_from : ℕ → ℕ → List Event
starts_from k zero = []
starts_from k (suc n) = starts k ∷ starts_from (suc k) n

-- The last of the sockets, or the value there was.
abbrev pub last : ℕ → List ℕ → ℕ
last v [] = v
last v (fd ∷ fds) = last fd fds

start_at-next :
    (v k : ℕ) (ts us : List (Option ℕ))
    → length ts ≡ k
    → start_at v k (ts ++ (none ∷ us)) ≡ some (ts ++ (some v ∷ us))
unfolding start_at
start_at-next v zero [] us e = refl
start_at-next v (suc k) [] us e = absurd (omega (arith, e))
start_at-next v zero (t ∷ ts) us e = absurd (omega (arith, e))
start_at-next v (suc k) (t ∷ ts) us e = rw (start_at-next v k ts us (omega (arith, e))) refl

length-snoc :
    (k : ℕ) (ts : List (Option ℕ)) (t : Option ℕ) → length ts ≡ k → length (ts ++ (t ∷ [])) ≡ suc k
length-snoc k ts t e = omega (arith, length-append ts (t ∷ []), e)

-- A start of the next thread that has not read.
run-starts :
    (v k : ℕ) (ts us : List (Option ℕ)) (es : List Event)
    → length ts ≡ k
    → run (starts k ∷ es) (clients v (ts ++ (none ∷ us)))
      ≡ run es (clients v ((ts ++ (some v ∷ [])) ++ us))
unfolding run
run-starts v k ts us es e =
    rw (run, start_at-next v k ts us e)
      (ap (λ rs. run es (clients v rs)) (sym (append_assoc ts (some v ∷ []) us)))

prompt-run :
    (v k : ℕ) (ts : List (Option ℕ)) (fds : List ℕ)
    → length ts ≡ k
    → run (prompt k fds) (clients v ts) ≡ some (clients (last v fds) (ts ++ map some fds))
unfolding run
prompt-run v k ts [] e = rw append-nil refl
prompt-run v k ts (fd ∷ fds) e =
    run-starts fd k ts [] (prompt (suc k) fds) e
    ∙ ap (λ rs. run (prompt (suc k) fds) (clients fd rs)) (append-nil (ts ++ (some fd ∷ [])))
    ∙ prompt-run fd (suc k) (ts ++ (some fd ∷ [])) fds (length-snoc k ts (some fd) e)
    ∙ ap (λ rs. some (clients (last fd fds) rs)) (append_assoc ts (some fd ∷ []) (map some fds))

accepts-run :
    (v : ℕ) (ts : List (Option ℕ)) (fds : List ℕ) (es : List Event)
    → run (map accepts fds ++ es) (clients v ts)
      ≡ run es (clients (last v fds) (ts ++ replicate (length fds) none))
unfolding run
accepts-run v ts [] es = rw append-nil refl
accepts-run v ts (fd ∷ fds) es =
    accepts-run fd (ts ++ (none ∷ [])) fds es
    ∙ ap (λ rs. run es (clients (last fd fds) rs))
        (append_assoc ts (none ∷ []) (replicate (length fds) none))

starts-run :
    (v k n : ℕ) (ts : List (Option ℕ))
    → length ts ≡ k
    → run (starts_from k n) (clients v (ts ++ replicate n none))
      ≡ some (clients v (ts ++ replicate n (some v)))
unfolding run
starts-run v k zero ts e = refl
starts-run v k (suc n) ts e =
    run-starts v k ts (replicate n none) (starts_from (suc k) n) e
    ∙ starts-run v (suc k) n (ts ++ (some v ∷ [])) (length-snoc k ts (some v) e)
    ∙ ap (λ rs. some (clients v rs)) (append_assoc ts (some v ∷ []) (replicate n (some v)))

-- If each thread reads its socket before the next client is accepted, each reads its own client's; if
-- all read theirs after the last client is accepted, each reads the last client's.
pub sockets-read :
    (v : ℕ) (fds : List ℕ)
    → (run (prompt 0 fds) (clients v []) ≡ some (clients (last v fds) (map some fds)))
      × (run (map accepts fds ++ starts_from 0 (length fds)) (clients v [])
          ≡ some (clients (last v fds) (replicate (length fds) (some (last v fds)))))
sockets-read v fds = (
  prompt-run v 0 [] fds refl,
  accepts-run v [] fds (starts_from 0 (length fds))
      ∙ starts-run (last v fds) 0 (length fds) [] refl,
)
